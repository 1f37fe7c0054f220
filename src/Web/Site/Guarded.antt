-- ===== src/Web/Site/Guarded.antt =====
-- internal/web/web.go: when a request to the handlers erases a logger.
use go_elite_log.Base.{ℕ, ◌≡◌, ◌⊎◌, inl, inr, refl, true, false, Option, All}
use go_elite_log.Base.Result.{Error}
use go_elite_log.Base.Step.{Step}
use go_elite_log.Base.Step.Preserve.{Keeps, Any}
use go_elite_log.Text.{Text}
use go_elite_log.Hid.{Device, Tree}
use go_elite_log.Logger.Transport.{Transport, World}
use go_elite_log.Logger.Identity.{DeviceInfo}
use go_elite_log.Logger.Requests.{recorder, IsRead, log_of}
use go_elite_log.Service.Counted.{Counted}
use go_elite_log.Web.Form.{is_confirmed}
use go_elite_log.Web.Site.{
  home, records_page, get_monitor, get_csv, no_notice, Request, all_values, post_configure,
  post_start,
}
use go_elite_log.Web.Site.Invariants.{of_pages, of_post_configure, of_post_start}
use go_elite_log.Loggers.{Loggers, Keeping}
use go_elite_log.Loggers.Guarded.{recorded, Erasable, Inv, Allowed, keeping, ends}

module _ (T : Transport) (open_device : Device → World T → Option Error × World T) (dev_root : Text)
    (tree : World T → Tree) (trim_space : Text → Text) where
  abbrev site : Loggers
  site = recorded T open_device dev_root tree

  -- What the site agrees to erase.
  abbrev pub Agreed : Request → ℕ → Type 0
  Agreed r count = (count ≡ 0) ⊎ (is_confirmed (all_values r) ≡ true)

  abbrev pub MayErase : Request → World (recorder T) → Type 0
  MayErase r w = Erasable T open_device dev_root tree (Agreed r) w

  allowed_start :
      (r : Request) (i : DeviceInfo)
      → Counted i
      → (i.count_known ≡ false) ⊎ Agreed r i.record_count
      → Agreed r i.record_count
  allowed_start r i counted (inl unknown) = inl (counted unknown)
  allowed_start r i counted (inr known) = known

  -- From a log of read requests only, a request to /configure or to /start writes read requests
  -- only, or calls of the service reach a world where an opened device reports a count of 0, or
  -- any count if the form confirms with yes.
  pub posts_guarded :
      (r : Request) (w : World (recorder T))
      → All IsRead (log_of T w)
      → (All IsRead (log_of T (post_configure site trim_space r w).1) ⊎ MayErase r w)
        × (All IsRead (log_of T (post_start site trim_space r w).1) ⊎ MayErase r w)
  posts_guarded r w h =
      let I : World (recorder T) → Type 0 = Inv T open_device dev_root tree (Agreed r) w in
      let k : Keeping site I Counted (Allowed T open_device dev_root tree (Agreed r) w) =
        keeping T open_device dev_root tree (Agreed r) w in
      (
        ends T open_device dev_root tree (Agreed r) w
            (of_post_configure site trim_space I Counted _ k r
              (λ interval i valid counted a. (inl refl, a)))
            h,
        ends T open_device dev_root tree (Agreed r) w
            (of_post_start site trim_space I Counted _ k r
              (λ i counted a. (inl refl, allowed_start r i counted a)))
            h,
      )

  -- From a log of read requests only, the pages /, /records, /monitor and /records.csv write read
  -- requests only, on any transport and for any query.
  pub gets-IsRead :
      (r : Request) (w : World (recorder T))
      → All IsRead (log_of T w)
      → All IsRead (log_of T (home site trim_space no_notice w).1)
        × All IsRead (log_of T (records_page site trim_space r no_notice w).1)
        × All IsRead (log_of T (get_monitor site trim_space w).1)
        × All IsRead (log_of T (get_csv site trim_space r w).1)
  gets-IsRead r w h =
      let Never : ℕ → Type 0 = λ count. ⊥ in
      let I : World (recorder T) → Type 0 = Inv T open_device dev_root tree Never w in
      let (home_k, records_k, monitor_k, csv_k) =
        of_pages site trim_space I Counted (Allowed T open_device dev_root tree Never w)
          (keeping T open_device dev_root tree Never w) r no_notice in
      (only_reads home_k, only_reads records_k, only_reads monitor_k, only_reads csv_k)
    where
      only_reads :
          {A : Type 0} {m : Step (World (recorder T)) A}
          → Keeps (Inv T open_device dev_root tree (λ count. ⊥) w) Any m
          → All IsRead (log_of T (m w).1)
      only_reads k = elim (ends T open_device dev_root tree (λ count. ⊥) w k h) [
        | inl reads ↦ reads
        | inr (v, dev, c, reach, e, never) ↦ absurd never
      ]
