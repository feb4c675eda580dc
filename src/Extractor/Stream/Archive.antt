-- ===== src/Extractor/Stream/Archive.antt =====
-- The archive of a state, as the list of its entries.
use ghost_ship.Base.{
  ℕ, String, ◌<>◌, Bool, ◌≡◌, refl, sym, ap, ◌∙◌, inl, inr, true, false, ok, none, some, List, [],
  ◌∷◌, ◌++◌, append-nil, append_assoc, count, if◌then◌else◌, Bool-cases, All,
}
use ghost_ship.Base.Dict.{Dict}
use ghost_ship.Extractor.State.{SystemState}
use ghost_ship.Extractor.Stream.{
  Header, TarWriter, TarReader, at_end, entry, write_entry, write_entries, pack_files,
}

-- The file of an archive: its name and its content.
abbrev pub Entry : Type 0
Entry = String × String

abbrev pub listing : List Entry → TarReader
listing [] = at_end
listing ((name, content) ∷ entries) = entry name (ok content) (listing entries)

-- The entries of the files of a map.
abbrev pub listed : String → Dict String → List Entry
listed prefix [] = []
listed prefix ((name, content) ∷ files) = (prefix <> "/" <> name, content) ∷ listed prefix files

abbrev pub files_listed : SystemState → List Entry
files_listed state =
    listed "certs" state.certificates
    ++ (listed "databases" state.databases
        ++ (listed "configs" state.configs ++ listed "ssh_keys" state.ssh_public_keys))

-- The entries whose names are taken.
abbrev pub kept : (String → Bool) → List Entry → List Entry
kept takes [] = []
kept takes ((name, content) ∷ entries) =
    let rest = kept takes entries in if takes name then (name, content) ∷ rest else rest

-- A writer of archives and the entries that it holds. It is ready between two entries; then it takes the header
-- of a name or refuses it, by the name alone, and behind a header a content of that length.
pub record IsTar {W : Type 0} (tar : TarWriter W) : Type 0 where
  pub holds : W → List Entry
  pub ready : W → Bool
  pub takes : String → Bool
  pub starts_ready : ready tar.fresh ≡ true
  pub starts_empty : holds tar.fresh ≡ []
  pub header_taken :
      (h : Header) (w : W) → ready w ≡ true → takes h.name ≡ true → (tar.write_header h w).0 ≡ none
  pub header_refused :
      (h : Header) (w : W)
      → ready w ≡ true
      → takes h.name ≡ false
      → (e : String) × (tar.write_header h w).0 ≡ some e
  pub refused_left :
      (h : Header) (w : W)
      → ready w ≡ true
      → takes h.name ≡ false
      → (ready (tar.write_header h w).1 ≡ true) × (holds (tar.write_header h w).1 ≡ holds w)
  pub written :
      (h : Header) (content : String) (w : W)
      → ready w ≡ true
      → takes h.name ≡ true
      → h.size ≡ count content
      → let (e, w') = tar.write content (tar.write_header h w).1 in
        (e ≡ none) × (ready w' ≡ true) × (holds w' ≡ holds w ++ ((h.name, content) ∷ []))

kept-append :
    (takes : String → Bool) (xs ys : List Entry)
    → kept takes (xs ++ ys) ≡ kept takes xs ++ kept takes ys
kept-append takes [] ys = refl
kept-append takes ((name, content) ∷ xs) ys = elim (Bool-cases (takes name)) [
  | inl p ↦
      rw (p, if◌then◌else◌)
        (ap (λ (es : List Entry). (name, content) ∷ es) (kept-append takes xs ys))
  | inr p ↦ rw (p, if◌then◌else◌) (kept-append takes xs ys)
]

abbrev pub IsTaken : (String → Bool) → Entry → Type 0
IsTaken takes (name, _) = takes name ≡ true

pub kept_all :
    (takes : String → Bool) (entries : List Entry)
    → All (IsTaken takes) entries
    → kept takes entries ≡ entries
kept_all takes [] h = refl
kept_all takes ((name, content) ∷ entries) (p, h) =
    rw (p, if◌then◌else◌)
      (ap (λ (es : List Entry). (name, content) ∷ es) (kept_all takes entries h))

module _ {W : Type 0} (tar : TarWriter W) (law : IsTar tar) where
  -- A writer between two entries that holds some of them.
  abbrev pub Holds : W → List Entry → Type 0
  Holds w entries = (law.ready w ≡ true) × (law.holds w ≡ entries)

  regroup :
      (before xs ys : List Entry)
      → (before ++ kept law.takes xs) ++ kept law.takes ys ≡ before ++ kept law.takes (xs ++ ys)
  regroup before xs ys =
      append_assoc before (kept law.takes xs) (kept law.takes ys)
      ∙ ap (λ (es : List Entry). before ++ es) (sym (kept-append law.takes xs ys))

  write_entry-Holds :
      (name : String) (mode : ℕ) (content : String) (w : W) (before : List Entry)
      → Holds w before
      → Holds
          (write_entry tar name mode content w)
          (before ++ kept law.takes ((name, content) ∷ []))
  unfolding write_entry
  write_entry-Holds name mode content w before (r, h) =
      let head : Header = record { name = name; mode = mode; size = count content } in
      elim (Bool-cases (law.takes name)) [
        | inl p ↦
            let (_, ready, holds) = law.written head content w r p refl in
            rw (write_entry, law.header_taken head w r p, p, if◌then◌else◌)
              (ready, holds ∙ ap (λ es. es ++ ((name, content) ∷ [])) h)
        | inr p ↦
            let (e, refused) = law.header_refused head w r p in
            let (ready, holds) = law.refused_left head w r p in
            rw (write_entry, refused, p, if◌then◌else◌) (ready, holds ∙ h ∙ sym (append-nil before))
      ]

  write_entries-Holds :
      (prefix : String) (mode : ℕ) (files : Dict String) (w : W) (before : List Entry)
      → Holds w before
      → Holds
          (write_entries tar prefix mode files w)
          (before ++ kept law.takes (listed prefix files))
  unfolding write_entries
  write_entries-Holds prefix mode [] w before (r, h) = (r, h ∙ sym (append-nil before))
  write_entries-Holds prefix mode ((name, content) ∷ files) w before h =
      let first : List Entry = (prefix <> "/" <> name, content) ∷ [] in
      let (ready, holds) =
        write_entries-Holds prefix mode files
          (write_entry tar (prefix <> "/" <> name) mode content w) (before ++ kept law.takes first)
          (write_entry-Holds (prefix <> "/" <> name) mode content w before h) in
      (ready, holds ∙ regroup before first (listed prefix files))

  -- Packing the files of a state leaves the writer between two entries, and the archive has, behind
  -- what it had, the files of the four maps whose names the writer takes, in their order.
  pub pack_files-Holds :
      (state : SystemState) (w : W) (before : List Entry)
      → Holds w before
      → Holds (pack_files tar state w) (before ++ kept law.takes (files_listed state))
  unfolding pack_files
  pack_files-Holds state w before h =
      let certs : List Entry = listed "certs" state.certificates in
      let dbs : List Entry = listed "databases" state.databases in
      let confs : List Entry = listed "configs" state.configs in
      let keys : List Entry = listed "ssh_keys" state.ssh_public_keys in
      let h₁ = write_entries-Holds "certs" 384 state.certificates w before h in
      let h₂ = write_entries-Holds "databases" 384 state.databases _ _ h₁ in
      let h₃ = write_entries-Holds "configs" 384 state.configs _ _ h₂ in
      let (ready, holds) = write_entries-Holds "ssh_keys" 420 state.ssh_public_keys _ _ h₃ in
      let three : List Entry = (before ++ kept law.takes certs) ++ kept law.takes dbs in
      (
        ready,
        holds
            ∙ regroup three confs keys
            ∙ regroup (before ++ kept law.takes certs) dbs (confs ++ keys)
            ∙ regroup before certs (dbs ++ (confs ++ keys)),
      )
