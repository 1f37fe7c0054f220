-- ===== src/Logger/Window.antt =====
-- internal/elitech/logger.go, `getWith`: which bytes of a reply a parameter read hands over.
use go_elite_log.Base.{ℕ, ◌+◌, ◌-◌, ◌≤◌, ◌≡◌, arith, List, length, slice, length-slice}
use go_elite_log.Base.Result.{ok}
use go_elite_log.Frame.{Frame}
use go_elite_log.Logger.Transport.{Transport, World, Session, lift, >>=-eq-ok}
use go_elite_log.Logger.Exchange.{window, get_with}

-- If a reply yields the window of a request, the window lies within the reply's range, is the
-- slice of its payload at the requested offset, and has the requested length.
pub window_lem :
    (T : Transport) (offset n : ℕ) (f : Frame) {d : List ℕ}
    → window T offset n f ≡ ok d
    → (f.offset ≤ offset)
      × (offset + n ≤ f.offset + length f.payload)
      × (d ≡ slice (offset - f.offset) (offset - f.offset + n) f.payload)
      × (length d ≡ n)
window_lem T offset n f {d} e =
    let (lo, hi, same) = inside in
    (
      lo,
      hi,
      same,
      (let q =
            length-slice (offset - f.offset) (offset - f.offset + n) f.payload (omega arith)
              (omega arith) in
          ground (arith, same, q)),
    )
  where
    inside :
        (f.offset ≤ offset)
        × (offset + n ≤ f.offset + length f.payload)
        × (d ≡ slice (offset - f.offset) (offset - f.offset + n) f.payload)
    inside = ground arith

module _ (T : Transport) (offset n wait : ℕ) (s : Session (World T)) {d : List ℕ} where
  -- If a parameter read succeeds, its bytes are the requested window of some frame.
  pub get_with-window :
      (get_with T offset n wait s).0 ≡ ok d → (f : Frame) × (window T offset n f ≡ ok d)
  unfolding get_with lift
  get_with-window e =
      let (u, p, e1) = >>=-eq-ok _ _ _ e in
      let (v, q, e2) = >>=-eq-ok _ _ _ e1 in let (f, r, e3) = >>=-eq-ok _ _ _ e2 in (f, e3)

  -- If a parameter read of `n` bytes succeeds, it returns exactly `n` bytes.
  pub length-get_with : (get_with T offset n wait s).0 ≡ ok d → length d ≡ n
  length-get_with e = let (f, w) = get_with-window e in (window_lem T offset n f w).3
