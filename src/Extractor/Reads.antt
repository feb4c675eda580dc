-- ===== src/Extractor/Reads.antt =====
-- What an extraction sends: commands that start in one of the ways that only read.
pub mod Files
pub mod Docker
pub mod Jobs
pub mod State
use ghost_ship.Base.{
  String, ◌<>◌, ◌≡◌, refl, inl, inr, Bool, true, false, ◌&&◌, ◌||◌, Result, ok, err, Option, none,
  some, List, [], ◌∷◌, All, arith, starts_with, ltb, count, ◌==◌, if◌then◌else◌, Bool-cases,
  Option-cases, contains, eq_iff, ap,
}
use text.Mathlib.TextPositions.{starts_with-append}
use ghost_ship.Base.Dict.{Dict, insert}
use ghost_ship.Ssh.{Server, Reply}
use ghost_ship.Extractor.Read.{first_output, collect}

-- How a command starts that shows a file, a container, an archive or a job.
abbrev pub reading_starts : List String
reading_starts =
    "cat " ∷ "sudo cat " ∷ "sudo -u root cat " ∷ "docker inspect "
    ∷ "tar czf - -C /var/lib/docker/volumes/" ∷ "nomad job inspect " ∷ []

abbrev pub reading_commands : List String
reading_commands =
    "hostname" ∷ "docker --version 2>/dev/null || echo 'not installed'"
    ∷ "free -h | awk 'NR==2 {print $2}'"
    ∷ "ls -la /etc/letsencrypt/live/ 2>/dev/null | tail -n +4 | awk '{print $NF}'"
    ∷ "docker ps -a --format '{{json .}}'" ∷ "docker images --format '{{.Repository}}:{{.Tag}}'"
    ∷ "docker volume ls --format '{{.Name}}'" ∷ "which nomad" ∷ "nomad version" ∷ "docker --version"
    ∷ "which containerd" ∷ "nomad job list -json 2>/dev/null" ∷ []

unfoldable pub starts_with_one : List String → String → Bool
starts_with_one [] cmd = false
starts_with_one (p ∷ ps) cmd = starts_with cmd p || starts_with_one ps cmd

unfoldable pub is_read : String → Bool
unfolding starts_with_one
is_read cmd = contains reading_commands cmd || starts_with_one reading_starts cmd

unfoldable pub all_read : List String → Bool
unfolding is_read
all_read [] = true
all_read (cmd ∷ log) = is_read cmd && all_read log

-- More commands that read.
pub read_more :
    (cmd : String) (log : List String)
    → is_read cmd ≡ true
    → all_read log ≡ true
    → all_read (cmd ∷ log) ≡ true
unfolding all_read
read_more cmd log p h = ground (arith, p, h)

or_true : (a b : Bool) → b ≡ true → (a || b) ≡ true
or_true true b h = refl
or_true false b h = h

starts_one :
    (ps : List String) (p rest : String)
    → contains ps p ≡ true
    → starts_with_one ps (p <> rest) ≡ true
unfolding starts_with_one
starts_one [] p rest h = absurd (ground (arith, h))
starts_one (q ∷ ps) p rest h = elim (Bool-cases (q == p)) [
  | inl e ↦
      let same : q ≡ p = (eq_iff q p).0 e in
      ground (arith, ap (λ x. starts_with (p <> rest) x) same, starts_with-append p rest)
  | inr n ↦ or_true (starts_with (p <> rest) q) _ (starts_one ps p rest (ground (arith, h, n)))
]

-- A command that starts in one of the ways is one that reads.
pub start_reads : (p rest : String) → contains reading_starts p ≡ true → is_read (p <> rest) ≡ true
unfolding is_read
start_reads p rest h =
    or_true (contains reading_commands (p <> rest)) _ (starts_one reading_starts p rest h)

abbrev pub IsRead : String → Type 0
IsRead cmd = is_read cmd ≡ true

module _ (server : Server) where
  pub first_output_reads :
      (message : String) (cmds : List String) (log : List String)
      → All IsRead cmds
      → all_read log ≡ true
      → all_read (first_output server message cmds log).1 ≡ true
  unfolding first_output
  first_output_reads message [] log r h = h
  first_output_reads message (cmd ∷ cmds) log (r, rs) h =
      let h' = read_more cmd log r h in
      ground (arith, h', first_output_reads message cmds (cmd ∷ log) rs h')

  pub collect_reads :
      (accept : String → Option String) (items : List (String × String)) (found : Dict String)
      (log : List String)
      → All (λ (_, cmd). IsRead cmd) items
      → all_read log ≡ true
      → all_read (collect server accept items found log).1 ≡ true
  unfolding collect
  collect_reads accept [] found log r h = h
  collect_reads accept ((key, cmd) ∷ items) found log (r, rs) h =
      let h' = read_more cmd log r h in
      let rest = λ (d : Dict String). collect_reads accept items d (cmd ∷ log) rs h' in
      elim (Option-cases (server log cmd).err) [
        | inr (e, p) ↦ ground (arith, p, rest found)
        | inl p ↦ elim (Option-cases (accept (server log cmd).out)) [
          | inl q ↦ ground (arith, p, q, rest found)
          | inr (v, q) ↦ ground (arith, p, q, rest (insert key v found))
        ]
      ]
