-- ===== src/Generator/Main.antt =====
-- `main` of src/generate_config_file.cpp, and how src/packet_sniffer.cpp opens its file.
pub mod ReadBack
use kddv.Base.{ℕ, Bool, true, false, Option, none, some, ◌>>=◌, List, [], ◌∷◌, ◌++◌, if◌then◌else◌}
use kddv.Text.{Text, text, str_eq}
use kddv.Json.{JsonLib}
use kddv.Sniffer.Setup.{ConfigFile, missing, malformed, parsed}
use kddv.Generator.{SdoRead, Mapped}
use kddv.Generator.Info.{Bus, get_info}

-- `Json::StyledWriter::write`, and `>>` into a value; `none` is an exception.
pub record Styled (J : JsonLib) : Type 0 where
  pub write : J.Value → Text
  pub read : Text → Option J.Value

-- The files by their names, and which of them `ofstream` can open.
pub record Disk : Type 0 where
  pub contents : Text → Option Text
  pub writable : Text → Bool

-- A file that cannot be opened is left as it is; the stream is not looked at.
unfoldable pub write_file : Text → Text → Disk → Disk
write_file name content disk =
    if disk.writable name
    then record disk { contents = λ f. if str_eq f name then some content else disk.contents f }
    else disk

module _ (J : JsonLib) (S : Styled J) where
  -- What `loadConfig` finds under a name.
  unfoldable pub config_in : Option Text → ConfigFile J
  config_in none = missing
  config_in (some content) = elim (S.read content) [ none ↦ malformed | some v ↦ parsed v ]

  abbrev pub config_of : Disk → Text → ConfigFile J
  config_of disk name = config_in (disk.contents name)

  -- `main` on `argv[1]` and what follows: the disk and the printed lines. `none` is a string made of
  -- a null pointer, where an argument is missing.
  unfoldable pub main :
      ℕ → SdoRead → Mapped → (Text → Bus) → Disk → List Text → Option (Disk × List Text)
  main fuel read m bus disk [] = none
  main fuel read m bus disk (ifname ∷ []) = none
  main fuel read m bus disk (ifname ∷ filename ∷ rest) = do
    (root, messages) ← get_info J fuel read m (bus ifname)
    some (
      write_file filename (S.write root) disk,
      messages ++ ((text "Wrote config to " ++ filename) ∷ []),
    )
