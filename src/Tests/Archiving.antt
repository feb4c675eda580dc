-- ===== src/Tests/Archiving.antt =====
-- A format of archives: fields, each character behind an a and each end a b.
use Prim.Native.Char.{Char, code}
use Prim.Native.String.{[], ◌∷◌}
use ghost_ship.Base.{
  String, ◌≡◌, refl, true, false, Bool, Option, none, some, ok, List, ◌++◌, eqb, if◌then◌else◌,
  arith,
}
use ghost_ship.Extractor.Stream.{Header, TarWriter, TarReader, at_end, broken, entry}
use ghost_ship.Extractor.Stream.Archive.{Entry, IsTar}

abbrev pub Texts : Type 0
Texts = List String

encode : String → String → String
encode [] rest = "b" ∷ rest
encode (c ∷ s) rest = "a" ∷ c ∷ encode s rest

with_head : Char → Texts → Texts
with_head c List.[] = List.[]
with_head c (List.◌∷◌ s texts) = List.◌∷◌ (c ∷ s) texts

decode : String → Texts
unfolding with_head
decode [] = List.[]
decode (x ∷ []) = List.◌∷◌ "" List.[]
decode (x ∷ c ∷ s) =
    let ended = List.◌∷◌ "" (decode (c ∷ s)) in
    let more = with_head c (decode s) in if eqb (code x) 98 then ended else more

unfoldable pub encode_all : List Entry → String
unfolding encode
encode_all List.[] = ""
encode_all (List.◌∷◌ (name, content) entries) = encode name (encode content (encode_all entries))

entries_in : Texts → TarReader
entries_in List.[] = at_end
entries_in (List.◌∷◌ name List.[]) = broken "unexpected EOF"
entries_in (List.◌∷◌ name (List.◌∷◌ content texts)) = entry name (ok content) (entries_in texts)

unfoldable pub read_tar : String → TarReader
unfolding entries_in decode
read_tar text = entries_in (decode text)

pub record Buffer : Type 0 where
  pub entries : List Entry
  pub pending : Option Header

-- A writer that takes every name.
abbrev pub writer : TarWriter Buffer
writer = record {
  fresh = record { entries = List.[]; pending = none };
  write_header = λ h w. (none, record w { pending = some h });
  write = λ content w. elim w.pending [
    | none ↦ (some "write too long", w)
    | some h ↦
        (none, record { entries = w.entries ++ List.◌∷◌ (h.name, content) List.[]; pending = none })
  ];
  output = λ w. encode_all w.entries;
}

pub not_refused : ◌≡◌ {A = Bool} true false → ⊥
not_refused h = ground (arith, h)

unfoldable pub writer_laws : IsTar writer
writer_laws = record {
  holds = λ w. w.entries;
  ready = λ w. elim w.pending [ none ↦ true | some h ↦ false ];
  takes = λ name. true;
  starts_ready = refl;
  starts_empty = refl;
  header_taken = λ h w r t. refl;
  header_refused = λ h w r t. absurd (not_refused t);
  refused_left = λ h w r t. absurd (not_refused t);
  written = λ h content w r t n. (refl, refl, refl);
}
