-- ===== src/Extractor/Stream/RoundTrip.antt =====
-- The entries that are packed, and what the loop over them makes of a state.
use ghost_ship.Base.{String, ◌≡◌, refl, ap, ◌∙◌, Result, ok, count, List, [], ◌∷◌, ◌++◌, All}
use ghost_ship.Extractor.State.{SystemState}
use ghost_ship.Extractor.Stream.{Header, TarWriter, TarReader, pack_files, unpack_entries}
use ghost_ship.Extractor.Stream.Archive.{
  Entry, listing, files_listed, IsTar, IsTaken, kept_all, pack_files-Holds,
}
use ghost_ship.Extractor.Stream.Laws.{completed, unpack_entries-files_listed}

module _ {W : Type 0} (tar : TarWriter W) (tar_law : IsTar tar)
    (unmarshal : String → SystemState → Result SystemState) (read_tar : String → TarReader)
    (decrypt : String → String → Result String) where
  abbrev pub entries_of : String → SystemState → List Entry
  entries_of yaml state = ("STATE.yaml", yaml) ∷ files_listed state

  -- The writer behind STATE.yaml, and behind the files of a state.
  abbrev pub described : String → W
  described yaml =
      let head : Header = record { name = "STATE.yaml"; mode = 420; size = count yaml } in
      (tar.write yaml (tar.write_header head tar.fresh).1).1

  abbrev pub packed : String → SystemState → W
  packed yaml state = pack_files tar state (described yaml)

  packed-holds :
      (yaml : String) (state : SystemState)
      → All (IsTaken tar_law.takes) (entries_of yaml state)
      → tar_law.holds (packed yaml state) ≡ entries_of yaml state
  packed-holds yaml state (taken, rest) =
      let head : Header = record { name = "STATE.yaml"; mode = 420; size = count yaml } in
      let (_, ready, holds) = tar_law.written head yaml tar.fresh tar_law.starts_ready taken refl in
      let first : List Entry = ("STATE.yaml", yaml) ∷ [] in
      let begun = holds ∙ ap (λ (es : List Entry). es ++ first) tar_law.starts_empty in
      (pack_files-Holds tar tar_law state _ first (ready, begun)).1
      ∙ ap (λ (es : List Entry). ("STATE.yaml", yaml) ∷ es)
          (kept_all tar_law.takes (files_listed state) rest)

  -- For a writer that takes STATE.yaml and the name of every file of the four maps of a state: the
  -- entries that it holds behind the packing loops, given to the loop of `UnpackSystemState` in their
  -- order, leave the state that STATE.yaml describes, with each file of the four maps put into the map
  -- and under the key that it came from. How an archive is closed, encrypted and read is not part of
  -- this.
  pub unpack_entries-pack_files :
      (yaml : String) (state empty told : SystemState)
      → unmarshal yaml empty ≡ ok told
      → All (IsTaken tar_law.takes) (entries_of yaml state)
      → unpack_entries unmarshal read_tar decrypt
          (listing (tar_law.holds (packed yaml state)))
          empty
        ≡ ok (completed unmarshal read_tar decrypt state told)
  unpack_entries-pack_files yaml state empty told u taken =
      ap (λ es. unpack_entries unmarshal read_tar decrypt (listing es) empty)
        (packed-holds yaml state taken)
      ∙ unpack_entries-files_listed unmarshal read_tar decrypt yaml state empty told u
