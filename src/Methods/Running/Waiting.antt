-- ===== src/Methods/Running/Waiting.antt =====
-- vx.stop: the command that halts the virtual server, and the time that it gets.
use mathlib.Core.List.{append_assoc, append-nil}
use vcd.Base.{ℕ, zero, suc, ◌<◌, List, [], ◌∷◌, ◌++◌, ◌≡◌, sym, ap, ◌∙◌, arith}
use vcd.Platform.{Platform}
use vcd.Kernel.{Syscall, sleep, Info, alive, gone}
use vcd.Call.{State, ok, fault, looks, nil}
use vcd.Call.Sys.{sys}
use vcd.Call.Sys.Follows.{called}
use vcd.Methods.{mebusy}
use vcd.Methods.Running.{wait_stopped}

-- So many seconds.
unfoldable pub seconds_of : ℕ → List Syscall
seconds_of zero = []
seconds_of (suc n) = sleep ∷ seconds_of n

module _ ⦃p : Platform⦄ where
  -- What the kernel says of the context when `h` and so many seconds have passed.
  abbrev pub info_after : ℕ → List Syscall → ℕ → Info
  info_after xid h n = p.vx_info (h ++ seconds_of n) xid

  shift :
      (xid : ℕ) (h : List Syscall) (n : ℕ)
      → info_after xid (h ++ sleep ∷ []) n ≡ info_after xid h (suc n)
  unfolding seconds_of
  shift xid h n = ap (λ c. p.vx_info c xid) (append_assoc h (sleep ∷ []) (seconds_of n))

  -- A context that is gone after `k` seconds, before the time is over, and not before.
  pub wait_stopped-stops :
      (xid timeout k : ℕ) (s : State)
      → k < timeout
      → ((j : ℕ) → j < k → info_after xid s.calls j ≡ alive)
      → info_after xid s.calls k ≡ gone
      → wait_stopped xid timeout s ≡ (ok nil, called s (seconds_of k))
  unfolding wait_stopped looks sys seconds_of
  wait_stopped-stops xid zero k s less living ended = absurd (omega arith)
  wait_stopped-stops xid (suc timeout) zero s less living ended =
      let here : p.vx_info s.calls xid ≡ gone =
        sym (ap (λ h. p.vx_info h xid) (append-nil s.calls)) ∙ ended in
      rw here (ap (λ h. (ok nil, record s { calls = h })) (sym (append-nil s.calls)))
  wait_stopped-stops xid (suc timeout) (suc k) s less living ended =
      let here : p.vx_info s.calls xid ≡ alive =
        sym (ap (λ h. p.vx_info h xid) (append-nil s.calls)) ∙ living zero (omega arith) in
      let rest =
        wait_stopped-stops xid timeout k (called s (sleep ∷ [])) (omega arith)
          (λ j lt. shift xid s.calls j ∙ living (suc j) (omega arith))
          (shift xid s.calls k ∙ ended) in
      rw here (
        rest
        ∙ ap (λ h. (ok nil, record s { calls = h }))
            (append_assoc s.calls (sleep ∷ []) (seconds_of k)))

  -- A context that lives through all of it.
  pub wait_stopped-lives :
      (xid timeout : ℕ) (s : State)
      → ((j : ℕ) → j < timeout → info_after xid s.calls j ≡ alive)
      → wait_stopped xid timeout s ≡ (fault mebusy, called s (seconds_of timeout))
  unfolding wait_stopped looks sys seconds_of
  wait_stopped-lives xid zero s living =
      ap (λ h. (fault mebusy, record s { calls = h })) (sym (append-nil s.calls))
  wait_stopped-lives xid (suc timeout) s living =
      let here : p.vx_info s.calls xid ≡ alive =
        sym (ap (λ h. p.vx_info h xid) (append-nil s.calls)) ∙ living zero (omega arith) in
      let rest =
        wait_stopped-lives xid timeout (called s (sleep ∷ []))
          (λ j lt. shift xid s.calls j ∙ living (suc j) (omega arith)) in
      rw here (
        rest
        ∙ ap (λ h. (fault mebusy, record s { calls = h }))
            (append_assoc s.calls (sleep ∷ []) (seconds_of timeout)))
