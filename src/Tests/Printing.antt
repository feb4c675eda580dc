-- ===== src/Tests/Printing.antt =====
-- What the commands print.
use ghost_ship.Tests.Node.{runtime}
use ghost_ship.Base.{String, ◌<>◌, ◌≡◌, refl, ◌↔◌, true, [], ◌∷◌}
use ghost_ship.Base.Text.{has_infix}
use ghost_ship.Base.Float.{Float64}
use ghost_ship.Base.Decimal.{format_int}
use ghost_ship.Extractor.Stream.Stub.{empty_stream}
use ghost_ship.Cli.Output.{refusal, usage_text, extract_done, migrate_output, migrate_success}
use ghost_ship.Cli.Output.Success.{Told, migrate_output-Told}
use ghost_ship.Tests.Moving.{state}
use ghost_ship.Tests.Migrating.{
  connect, load_config, decode_container, decode_objects, decode_object, hash, arguments, run,
}

unknown : refusal ("fly" ∷ []) ≡ "Unknown command: fly\n" <> usage_text
unfolding refusal
unknown = refl

-- Numbers that are only written down.
abbrev written : Float64 String
written = record {
  of_int = format_int;
  over = λ x y. x <> "/" <> y;
  times = λ x y. x <> "*" <> y;
  fixed = λ n x. x;
}

extract_done-empty :
    extract_done written state empty_stream
    ≡ "\n✓ System state extracted and encrypted\n  Databases: 1\n  Certificates: 1\n  Original size: 0/1024/1024 MB\n  Encrypted size: 0/1024/1024 MB\n  Compression ratio: 0/0*100%\n"
unfolding format_int
extract_done-empty = refl

migrate_output-Told_example :
    let text =
      migrate_output connect load_config runtime decode_container decode_objects decode_object hash
        hash arguments in
    Told run.exit_code text × ((has_infix text migrate_success ≡ true) ↔ (run.exit_code ≡ 0))
migrate_output-Told_example =
    migrate_output-Told connect load_config runtime decode_container decode_objects decode_object
      hash hash arguments
