-- ===== src/Web/Router/Guarded.antt =====
-- internal/web/web.go, `NewHandler`: which requests to the site change a logger.
use go_elite_log.Base.{◌≡◌, ◌⊎◌, inl, inr, refl, Option, none, some, All}
use go_elite_log.Base.Result.{Error}
use go_elite_log.Base.Step.{pure}
use go_elite_log.Text.{Text, codes}
use go_elite_log.Hid.{Device, Tree}
use go_elite_log.Logger.Transport.{Transport, World}
use go_elite_log.Logger.Requests.{recorder, IsRead, log_of}
use go_elite_log.Loggers.Guarded.{recorded}
use go_elite_log.Web.Site.{Response}
use go_elite_log.Web.Site.Guarded.{MayErase, posts_guarded, gets-IsRead}
use go_elite_log.Web.Router.{
  Target, Pattern, Incoming, Mux, post_verb, to_home, to_configure, to_records, to_monitor,
  to_start, to_stop, to_csv, to_favicon, to_stylesheet, pattern_of, handled, new_handler,
}

-- A pattern with the method POST matches requests of that method only.
abbrev pub ByMethod : Mux → Type 0
ByMethod mux =
    (patterns : Target → Pattern) (method path : Text) (t : Target)
    → mux patterns method path ≡ some t
    → (patterns t).verb ≡ post_verb
    → method ≡ codes "POST"

module _ (T : Transport) (open_device : Device → World T → Option Error × World T) (dev_root : Text)
    (tree : World T → Tree) (trim_space : Text → Text) (mux : Mux)
    (favicon stylesheet unmatched : Incoming → Response) where
  abbrev pub answered : Incoming → World (recorder T) → World (recorder T)
  answered i w =
      (new_handler (recorded T open_device dev_root tree) trim_space mux favicon stylesheet
        unmatched i w).1

  -- Reads only, or a request to stop, or one that may erase.
  abbrev pub Changes : Incoming → World (recorder T) → Type 0
  Changes i w =
      (i.method ≡ codes "POST")
      × ((mux pattern_of i.method i.path ≡ some to_stop)
          ⊎ MayErase T open_device dev_root tree trim_space i.request w)

  by_target :
      (i : Incoming) (w : World (recorder T)) (o : Option Target)
      → ByMethod mux
      → mux pattern_of i.method i.path ≡ o
      → All IsRead (log_of T w)
      → All IsRead (
          log_of T
            (handled
              (recorded T open_device dev_root tree)
              trim_space
              mux
              favicon
              stylesheet
              unmatched
              i
              o
              w).1)
        ⊎ Changes i w
  unfolding pure
  by_target i w none law e h = inl h
  by_target i w (some to_home) law e h =
      inl (gets-IsRead T open_device dev_root tree trim_space i.request w h).0
  by_target i w (some to_configure) law e h =
      elim (posts_guarded T open_device dev_root tree trim_space i.request w h).0 [
        | inl reads ↦ inl reads
        | inr erases ↦ inr (law pattern_of i.method i.path to_configure e refl, inr erases)
      ]
  by_target i w (some to_records) law e h =
      inl (gets-IsRead T open_device dev_root tree trim_space i.request w h).1
  by_target i w (some to_monitor) law e h =
      inl (gets-IsRead T open_device dev_root tree trim_space i.request w h).2
  by_target i w (some to_start) law e h =
      elim (posts_guarded T open_device dev_root tree trim_space i.request w h).1 [
        | inl reads ↦ inl reads
        | inr erases ↦ inr (law pattern_of i.method i.path to_start e refl, inr erases)
      ]
  by_target i w (some to_stop) law e h = inr (law pattern_of i.method i.path to_stop e refl, inl e)
  by_target i w (some to_csv) law e h =
      inl (gets-IsRead T open_device dev_root tree trim_space i.request w h).3
  by_target i w (some to_favicon) law e h = inl h
  by_target i w (some to_stylesheet) law e h = inl h

  -- If the mux matches a pattern with the method POST to requests of that method only, then on
  -- any transport and from a log of read requests only, the handler of `NewHandler` answers any
  -- request with read requests only, or the method is POST, and the request is matched to /stop,
  -- or calls of the service reach a world where an opened device reports a count of 0, or any
  -- count if the form confirms with yes.
  pub requests_guarded :
      (i : Incoming) (w : World (recorder T))
      → ByMethod mux
      → All IsRead (log_of T w)
      → All IsRead (log_of T (answered i w)) ⊎ Changes i w
  unfolding new_handler
  requests_guarded i w law h = by_target i w (mux pattern_of i.method i.path) law refl h
