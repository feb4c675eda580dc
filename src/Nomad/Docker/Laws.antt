-- ===== src/Nomad/Docker/Laws.antt =====
-- A restore of Docker's state tries every part of it, whatever fails; and what an extraction finds.
use ghost_ship.Base.{
  String, ◌≡◌, refl, inl, inr, ◌⊎◌, ◌↔◌, true, none, some, List, [], ◌∷◌, arith, ◌==◌,
  if◌then◌else◌, Bool-cases, contains, All, eq_iff, eq_refl, map, ◌&&◌, not, Bool,
}
use ghost_ship.Base.Text.{trim_space}
use ghost_ship.Base.Dict.{Dict, lookup, insert, lookup-insert}
use ghost_ship.Ssh.{Reply, Server}
use ghost_ship.Nomad.Docker.{ContainerConfig, DockerState, tar_command, volume_loop}
use ghost_ship.Nomad.Docker.Restore.{
  volume_write, compose_write, container_command, restore_volume, restore_volume_data,
  restore_compose, restore_compose_yaml, restore_container, restore_containers,
  restore_docker_state, validate_docker_state,
}

-- The command was sent.
abbrev pub Sent : List String → String → Type 0
Sent log cmd = contains log cmd ≡ true

abbrev pub ArchiveSent : List String → String × String → Type 0
ArchiveSent log (volume, content) = Sent log (volume_write volume content)

abbrev pub ComposeSent : List String → String → Type 0
ComposeSent log yaml = (yaml ≡ "") ⊎ Sent log (compose_write yaml)

abbrev pub ContainerSent : List String → ContainerConfig → Type 0
ContainerSent log c = (c.image ≡ "") ⊎ Sent log (container_command c)

pub All-map {ℓ κ} :
    {A : Type ℓ} {P Q : A → Type κ} (xs : List A) → ((x : A) → P x → Q x) → All P xs → All Q xs
All-map [] f h = h
All-map (x ∷ xs) f (p, h) = (f x p, All-map xs f h)

module _ (server : Server) where
  volume_kept :
      (v c x : String) (log : List String) → Sent log x → Sent (restore_volume server v c log).1 x
  unfolding restore_volume
  volume_kept v c x log h = ground arith

  volume-Sent :
      (v c : String) (log : List String) → Sent (restore_volume server v c log).1 (volume_write v c)
  unfolding restore_volume
  volume-Sent v c log = ground (arith, eq_refl (volume_write v c))

  volumes_kept :
      (archives : Dict String) (x : String) (log : List String)
      → Sent log x
      → Sent (restore_volume_data server archives log).1 x
  unfolding restore_volume_data
  volumes_kept [] x log h = h
  volumes_kept ((v, c) ∷ archives) x log h =
      volumes_kept archives x (restore_volume server v c log).1 (volume_kept v c x log h)

  volumes-Sent :
      (archives : Dict String) (log : List String)
      → All (ArchiveSent (restore_volume_data server archives log).1) archives
  unfolding restore_volume_data
  volumes-Sent [] log = tt
  volumes-Sent ((v, c) ∷ archives) log = (
    volumes_kept archives (volume_write v c) (restore_volume server v c log).1
        (volume-Sent v c log),
    volumes-Sent archives (restore_volume server v c log).1,
  )

  compose_kept :
      (yaml x : String) (log : List String)
      → Sent log x
      → Sent (restore_compose server yaml log).1 x
  unfolding restore_compose_yaml
  compose_kept yaml x log h = ground arith

  compose-Sent :
      (yaml : String) (log : List String) → ComposeSent (restore_compose server yaml log).1 yaml
  unfolding restore_compose_yaml
  compose-Sent yaml log = elim (Bool-cases (yaml == "")) [
    | inl p ↦ inl ((eq_iff yaml "").0 p)
    | inr p ↦ inr (ground (arith, eq_refl (compose_write yaml)))
  ]

  container_kept :
      (c : ContainerConfig) (x : String) (log : List String)
      → Sent log x
      → Sent (restore_container server c log).1 x
  unfolding restore_container
  container_kept c x log h = ground arith

  container-Sent :
      (c : ContainerConfig) (log : List String) → ContainerSent (restore_container server c log).1 c
  unfolding restore_container
  container-Sent c log = elim (Bool-cases (c.image == "")) [
    | inl p ↦ inl ((eq_iff c.image "").0 p)
    | inr p ↦ inr (ground (arith, eq_refl (container_command c)))
  ]

  containers_kept :
      (cs : List ContainerConfig) (x : String) (log : List String)
      → Sent log x
      → Sent (restore_containers server cs log).1 x
  unfolding restore_containers
  containers_kept [] x log h = h
  containers_kept (c ∷ cs) x log h =
      containers_kept cs x (restore_container server c log).1 (container_kept c x log h)

  containers-Sent :
      (cs : List ContainerConfig) (log : List String)
      → All (ContainerSent (restore_containers server cs log).1) cs
  unfolding restore_containers
  containers-Sent [] log = tt
  containers-Sent (c ∷ cs) log = (
    elim (container-Sent c log) [
      | inl p ↦ inl p
      | inr p ↦ inr (containers_kept cs (container_command c) (restore_container server c log).1 p)
    ],
    containers-Sent cs (restore_container server c log).1,
  )

  restored-none :
      (cs : List ContainerConfig) (log : List String) → (restore_containers server cs log).0 ≡ none
  unfolding restore_containers
  restored-none [] log = refl
  restored-none (c ∷ cs) log = restored-none cs (restore_container server c log).1

  pub docker_kept :
      (state : DockerState) (x : String) (log : List String)
      → Sent log x
      → Sent (restore_docker_state server state log).1 x
  unfolding restore_docker_state
  docker_kept state x log h =
      let after_volumes : List String = (restore_volume_data server state.volume_data log).1 in
      containers_kept state.containers x (restore_compose server state.compose_yaml after_volumes).1
        (compose_kept state.compose_yaml x after_volumes (volumes_kept state.volume_data x log h))

  -- A restore returns no error and tries every part, whatever the server replies: among the commands
  -- sent at its end are the writing of every volume's archive, the writing of the compose file if
  -- the state has one, and the start of every container that has an image.
  pub restore_docker_state_tries :
      (state : DockerState) (log : List String)
      → let (e, end) = restore_docker_state server state log in
        (e ≡ none)
        × All (ArchiveSent end) state.volume_data
        × ComposeSent end state.compose_yaml
        × All (ContainerSent end) state.containers
  unfolding restore_docker_state
  restore_docker_state_tries state log =
      let after_volumes : List String = (restore_volume_data server state.volume_data log).1 in
      let after_compose : List String =
        (restore_compose server state.compose_yaml after_volumes).1 in
      (
        restored-none state.containers after_compose,
        All-map state.volume_data
            (λ (v, c) p.
              containers_kept state.containers (volume_write v c) after_compose
                (compose_kept state.compose_yaml (volume_write v c) after_volumes p))
            (volumes-Sent state.volume_data log),
        elim (compose-Sent state.compose_yaml after_volumes) [
          | inl p ↦ inl p
          | inr p ↦
              inr (
                containers_kept state.containers (compose_write state.compose_yaml) after_compose p)
        ],
        containers-Sent state.containers after_compose,
      )

  -- The validation returns no error exactly if `docker --version` and then `docker ps` succeed.
  pub validate_docker_state-none_iff :
      (log : List String)
      → ((validate_docker_state server log).0 ≡ none) ↔ (
          ((server log "docker --version").err ≡ none)
          × ((server ("docker --version" ∷ log) "docker ps").err ≡ none))
  unfolding validate_docker_state
  validate_docker_state-none_iff log = (λ h. ground arith, λ (p, q). ground (arith, p, q))

-- A server whose replies do not depend on what was sent before.
abbrev pub fixed : (String → Reply) → Server
fixed answers log cmd = answers cmd

abbrev pub is_kept : (String → Reply) → List String → String → Bool
is_kept answers lines v =
    contains (map trim_space lines) v
    && not (v == "")
    && elim (answers (tar_command v)).err [ none ↦ true | some _ ↦ Bool.false ]

-- On a server with fixed replies, the archive of a volume is what `tar` prints for it, if its name is
-- not empty and one of the trimmed lines and `tar` succeeds; all other entries are those from before.
pub lookup-volume_loop :
    (answers : String → Reply) (v : String) (lines : List String) (archives : Dict String)
    (log : List String)
    → lookup v (volume_loop (fixed answers) lines archives log).0
      ≡ (if is_kept answers lines v then some (answers (tar_command v)).out else lookup v archives)
unfolding volume_loop
lookup-volume_loop answers v [] archives log = refl
lookup-volume_loop answers v (line ∷ lines) archives log =
    let t = trim_space line in
    let sent : List String = tar_command t ∷ log in
    let saved = insert t (answers (tar_command t)).out archives in
    elim (Bool-cases (t == v)) [
      | inl p ↦
          let same : t ≡ v = (eq_iff t v).0 p in
          ground (
            arith,
            same,
            lookup-insert t v (answers (tar_command t)).out archives,
            lookup-volume_loop answers v lines archives log,
            lookup-volume_loop answers v lines archives sent,
            lookup-volume_loop answers v lines saved sent,
          )
      | inr p ↦ ground (
        arith,
        p,
        lookup-insert t v (answers (tar_command t)).out archives,
        lookup-volume_loop answers v lines archives log,
        lookup-volume_loop answers v lines archives sent,
        lookup-volume_loop answers v lines saved sent,
      )
    ]
