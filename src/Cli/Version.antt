-- ===== src/Cli/Version.antt =====
-- cmd/elitelog/main.go: the text of the version, and the address that `serve` shows. What the build
-- has recorded, the reading and the formatting of its time and the time of the executable are
-- parameters.
use go_elite_log.Base.{
  Bool, true, false, not, Option, none, some, List, [], ◌∷◌, ◌++◌, take, option_or, if◌then◌else◌,
}
use go_elite_log.Text.{Text, codes, text_eq, has_prefix}

-- The settings of a build, in order.
abbrev pub BuildSettings : Type 0
BuildSettings = List (Text × Text)

-- The loop over the settings: the last value of a key, or what stood there before.
unfoldable pub last_value : Text → Text → BuildSettings → Text
last_value key before [] = before
last_value key before ((k, v) ∷ kvs) = last_value key (if text_eq k key then v else before) kvs

abbrev is_empty : Text → Bool
is_empty [] = true
is_empty (c ∷ s) = false

-- `local_time` is none where `time.Parse` fails.
module _ (local_time : Text → Option Text) where
  abbrev pub built_version : Text → Text → Text
  built_version when rev =
      codes "dev " ++ (option_or when (λ t. t) (local_time when) ++ (codes " " ++ take 7 rev))

  -- The version of the executable's own time, which is none where it cannot be told.
  abbrev pub stamped_version : Text → Option Text → Text
  stamped_version version none = version
  stamped_version version (some t) = codes "dev built " ++ t

  abbrev pub recorded_version : Text → Option Text → BuildSettings → Text
  recorded_version version executable settings =
      let when = last_value (codes "vcs.time") [] settings in
      if is_empty when
      then stamped_version version executable
      else built_version when (last_value (codes "vcs.revision") [] settings)

  -- `init`: the version that stands there afterwards.
  unfoldable pub version_of : Text → Option BuildSettings → Option Text → Text
  unfolding last_value
  version_of version build executable =
      if not (text_eq version (codes "dev"))
      then version
      else option_or (stamped_version version executable) (recorded_version version executable)
          build

-- The address that `serve` logs.
unfoldable pub shown_address : Text → Text
shown_address addr =
    option_or addr (λ rest. codes "localhost" ++ addr) (has_prefix (codes ":") addr)

-- `web.Version`
abbrev pub web_version : Text → Text
web_version version = codes "elitelog " ++ version
