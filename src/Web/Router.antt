-- ===== src/Web/Router.antt =====
-- internal/web/web.go, `NewHandler`: the routes of the site. Which registered pattern a request
-- matches is a parameter, `http.ServeMux`, and so is what answers a request that matches none; the
-- two files that lofigui serves are pages of it, since no logger is at hand there.
pub mod Guarded
use go_elite_log.Base.{Option, option_or}
use go_elite_log.Base.Step.{Step, pure}
use go_elite_log.Text.{Text, codes}
use go_elite_log.Web.Site.{
  Request, Response, no_notice, home, records_page, get_monitor, get_csv, post_configure,
  post_start, post_stop,
}
use go_elite_log.Loggers.{Loggers}

-- The handlers that are registered.
pub data Target : Type 0 where
  to_home to_configure to_records to_monitor to_start to_stop to_csv to_favicon to_stylesheet :
      Target

pub data Verb : Type 0 where
  get_verb post_verb : Verb

-- The patterns, in their two parts.
pub record Pattern : Type 0 where
  pub verb : Verb
  pub path : Text

abbrev pub pattern_of : Target → Pattern
pattern_of to_home = record { verb = get_verb; path = codes "/{$}" }
pattern_of to_configure = record { verb = post_verb; path = codes "/configure" }
pattern_of to_records = record { verb = get_verb; path = codes "/records" }
pattern_of to_monitor = record { verb = get_verb; path = codes "/monitor" }
pattern_of to_start = record { verb = post_verb; path = codes "/start" }
pattern_of to_stop = record { verb = post_verb; path = codes "/stop" }
pattern_of to_csv = record { verb = get_verb; path = codes "/records.csv" }
pattern_of to_favicon = record { verb = get_verb; path = codes "/favicon.ico" }
pattern_of to_stylesheet = record { verb = get_verb; path = codes "/assets/bulma.min.css" }

-- A request with its method and its path.
pub record Incoming : Type 0 where
  pub method : Text
  pub path : Text
  pub request : Request

-- The choice of a pattern for a method and a path.
abbrev pub Mux : Type 0
Mux = (Target → Pattern) → Text → Text → Option Target

module _ (S : Loggers) (trim_space : Text → Text) (mux : Mux)
    (favicon stylesheet unmatched : Incoming → Response) where
  abbrev pub handle : Target → Incoming → Step S.World Response
  handle to_home i = home S trim_space no_notice
  handle to_configure i = post_configure S trim_space i.request
  handle to_records i = records_page S trim_space i.request no_notice
  handle to_monitor i = get_monitor S trim_space
  handle to_start i = post_start S trim_space i.request
  handle to_stop i = post_stop S trim_space i.request
  handle to_csv i = get_csv S trim_space i.request
  handle to_favicon i = pure (favicon i)
  handle to_stylesheet i = pure (stylesheet i)

  -- The handler that `NewHandler` returns.
  abbrev pub handled : Incoming → Option Target → Step S.World Response
  handled i o = option_or (pure (unmatched i)) (λ t. handle t i) o

  unfoldable pub new_handler : Incoming → Step S.World Response
  new_handler i = handled i (mux pattern_of i.method i.path)
