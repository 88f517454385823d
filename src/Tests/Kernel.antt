-- ===== src/Tests/Kernel.antt =====
-- Virtual servers that run, start, stop and are set up, at concrete inputs.
use vcd.Base.{
  ℕ, ◌+◌, Bool, true, false, List, [], ◌∷◌, ◌++◌, some, ◌≡◌, refl, All, arith, ◌⊎◌, if◌then◌else◌,
  ltb, ◌%◌, ◌^◌,
}
use vcd.Base.Int.{pos}
use vcd.Sql.{int, text, put_rows}
use vcd.Platform.{Platform, IsHealthy}
use vcd.Kernel.{Syscall, sleep, Info, alive, gone, Visit}
use vcd.Call.{member, State, Params, str, num, external, ok, fault}
use vcd.Call.Sys.Follows.{called}
use vcd.Lists.VcdCap
use vcd.Methods.{m_owner, m_lock, mebusy, method_init}
use vcd.Methods.Gate.{counted}
use vcd.Methods.Helper.{m_helper_startup}
use vcd.Methods.Helper.Disk.{Usage, nothing_used, walk}
use vcd.Methods.Helper.Disk.Count.{sum_blocks, length, counted_files}
use vcd.Methods.Helper.Disk.Buffers.{by_buffer, walk-by_buffer}
use vcd.Methods.Helper.Plan.Sane.{Sane}
use vcd.Methods.Helper.Plan.Startup.{
  Carries, startup_plan, startup_dir, m_helper_startup-Carries, m_helper_startup-Sane,
}
use vcd.Methods.Helper.Plan.Ready.{Barred, IsReady}
use vcd.Methods.Running.{m_vx_stop, last_timeout}
use vcd.Methods.Running.Waiting.{seconds_of}
use vcd.Methods.Running.Stop.{halted, halt_rows, m_vx_stop-busy}
use vcd.Tests.Reference.{reference, reference-IsHealthy}
use vcd.Tests.Run.{run_call}
use vcd.Tests.Sample.{sample, initial, bob}

-- The same platform with contexts that run as long as `f` says.
unfoldable pub running : (List Syscall → Info) → Platform
unfolding reference
running f = record reference { host = record reference.host { vx_info = λ h xid. f h } }

abbrev restless : List Syscall → Info
restless h = alive

abbrev is_sleep : Syscall → Bool
is_sleep sleep = true
is_sleep _ = false

abbrev sleeps : List Syscall → ℕ
sleeps [] = 0
sleeps (c ∷ h) = (if is_sleep c then 1 else 0) + sleeps h

-- A context that ends after two seconds.
abbrev tired : List Syscall → Info
tired h = if ltb (sleeps h) 2 then alive else gone

running-IsHealthy : (f : List Syscall → Info) → IsHealthy (running f)
unfolding running reference
running-IsHealthy f = record {
  exec_total = reference-IsHealthy.exec_total;
  prepare_total = reference-IsHealthy.prepare_total;
}

abbrev limited : State
limited = record initial {
  db =
      put_rows "vx_limit"
        ((("xid", int (pos 10))
            ∷ ("type", text "RSS")
            ∷ ("soft", int (pos 20))
            ∷ ("max", int (pos 5))
            ∷ [])
          ∷ [])
        (put_rows "vx_bcaps" ((("xid", int (pos 10)) ∷ ("bcap", text "CHOWN") ∷ []) ∷ []) sample);
}

abbrev of_web : Params
of_web = ("xid", num (pos 10)) ∷ []

m_helper_startup-Carries_example :
    Carries
      (m_helper_startup ⦃p = running restless⦄ (external bob of_web) limited)
      []
      (startup_plan ⦃p = running restless⦄ (counted ⦃p = running restless⦄ limited).db [] 10)
    × (Barred ⦃p = running restless⦄
          (m_helper_startup ⦃p = running restless⦄ (external bob of_web) limited)
          []
        ⊎ (((method_init ⦃p = running restless⦄ (external bob of_web) VcdCap.helper 0 limited).0
              ≡ ok of_web)
            × IsReady ⦃p = running restless⦄ (counted ⦃p = running restless⦄ limited).db [] 10))
unfolding member
m_helper_startup-Carries_example =
    m_helper_startup-Carries ⦃p = running restless⦄ bob of_web (pos 10) limited refl

m_helper_startup-Sane_example :
    (made : List Syscall) × ((m_helper_startup ⦃p = running restless⦄
        (external bob of_web)
        limited).1.calls
      ≡ [] ++ made)
    × All
        (Sane ⦃p = running restless⦄ 10
          (startup_dir ⦃p = running restless⦄ (counted ⦃p = running restless⦄ limited).db 10))
        made
unfolding member
m_helper_startup-Sane_example =
    m_helper_startup-Sane ⦃p = running restless⦄ bob of_web (pos 10) limited refl

abbrev web_named : Params
web_named = ("name", str "web") ∷ []

-- The owner of the virtual server may stop it.
abbrev stopping : State
stopping = record initial {
  db = put_rows "user_caps" ((("uid", int (pos 2)) ∷ ("cap", text "INIT") ∷ []) ∷ []) initial.db;
}

-- The state behind the gate.
abbrev let_in : (List Syscall → Info) → State
let_in f =
    (method_init ⦃p = running f⦄ (external bob web_named) VcdCap.init (m_owner + m_lock) stopping).1

m_vx_stop-busy_example : m_vx_stop ⦃p = running restless⦄ (external bob web_named) stopping ≡ (
  fault mebusy,
  called (halted ⦃p = running restless⦄ (let_in restless) "web" "/vservers") (
      seconds_of (
        last_timeout ⦃p = running restless⦄ 15
          (halt_rows ⦃p = running restless⦄ (let_in restless) "web"))),
)
unfolding run_call running
m_vx_stop-busy_example =
    m_vx_stop-busy ⦃p = running restless⦄ (external bob web_named) stopping (let_in restless)
      web_named "web" "/vservers" (running-IsHealthy restless) refl refl
      (record {
        valid = refl;
        known = λ e. absurd (ground arith);
        runs = refl;
        has_vdir = refl;
        enters = refl;
      })
      refl (λ j less. refl)

-- A file with two links.
abbrev linked : ℕ → ℕ → Visit
linked sb ino = record { sb = sb; st_ino = ino; st_nlink = 2; st_blocks = 8; attr = some (1, 10) }

walk-by_buffer_example :
    (w : Usage) × (walk ⦃p = reference⦄ 10 (linked 1 100 ∷ linked 1 200 ∷ []) nothing_used ≡ some w)
    × (w.used_blocks
        ≡ sum_blocks
            (counted_files ⦃p = reference⦄ 10 by_buffer false (linked 1 100 ∷ linked 1 200 ∷ []))
          % 2 ^ 32)
    × (w.used_inodes
        ≡ length
            (counted_files ⦃p = reference⦄ 10 by_buffer false (linked 1 100 ∷ linked 1 200 ∷ []))
          % 2 ^ 32)
walk-by_buffer_example =
    walk-by_buffer ⦃p = reference⦄ 10 1 (linked 1 100 ∷ linked 1 200 ∷ []) (refl, (refl, tt))
      (((1, 10), refl), (((1, 10), refl), tt))

-- The blocks of the second file are missing.
one_buffer :
    sum_blocks (counted_files ⦃p = reference⦄ 10 by_buffer false (linked 1 100 ∷ linked 1 200 ∷ []))
    ≡ 8
unfolding reference sum_blocks counted_files
one_buffer = refl
