-- ===== src/Service/Counted.antt =====
-- internal/elitech/service.go: the count in the `Info` that is returned.
use go_elite_log.Base.{◌≡◌, refl, true, false, Option, none, some, option_or}
use go_elite_log.Base.Result.{ok, Error}
use go_elite_log.Base.Step.Preserve.{
  Keeps, Nothing, Keeps-bind, Keeps-pure_value, keeps_any, value_of_keeps,
}
use go_elite_log.Info.{Counts}
use go_elite_log.Logger.Transport.{Transport, World, Session}
use go_elite_log.Logger.Identity.{DeviceInfo, info}
use go_elite_log.Service.{fresh, closing, if_opened, with_logger, service_info}

-- A count that is not known is zero.
abbrev pub Counted : DeviceInfo → Type 0
Counted i = i.count_known ≡ false → i.record_count ≡ 0

unknown_is_zero :
    (o : Option Counts) → option_or false (λ c. true) o ≡ false → option_or 0 (λ c. c.count) o ≡ 0
unknown_is_zero none e = refl
unknown_is_zero (some c) e = cc

module _ (T : Transport) where
  info-Keeps : Keeps Nothing Counted (info T)
  unfolding info
  info-Keeps =
      let N : Session (World T) → Type 0 = Nothing in
      Keeps-bind N (keeps_any _) (λ id u. Keeps-bind N (keeps_any _) (λ counts u.
        Keeps-bind N (keeps_any _) (λ iv u. Keeps-bind N (keeps_any _) (λ start u.
          Keeps-bind N (keeps_any _) (λ unit u. Keeps-bind N (keeps_any _) (λ battery u.
            Keeps-bind N (keeps_any _) (λ configured u. Keeps-bind N (keeps_any _) (λ runtime u.
              Keeps-bind N (keeps_any _) (λ clock u.
                Keeps-bind N (keeps_any _)
                  (λ st u. Keeps-pure_value N Counted _ (unknown_is_zero counts)))))))))))

  opened-Counted :
      (open_device : World T → Option Error × World T) (o : Option Error × World T) (i : DeviceInfo)
      → (if_opened T open_device (λ w. closing T open_device (info T (fresh T open_device w))) o).0
        ≡ ok i
      → Counted i
  opened-Counted open_device (none, w) i e = value_of_keeps info-Keeps (fresh T open_device w) i e
  opened-Counted open_device (some x, w) i e = cc

  pub service_info-Counted :
      (open_device : World T → Option Error × World T) (w : World T) (i : DeviceInfo)
      → (service_info T open_device w).0 ≡ ok i
      → Counted i
  unfolding service_info with_logger
  service_info-Counted open_device w i e = opened-Counted open_device (open_device w) i e
