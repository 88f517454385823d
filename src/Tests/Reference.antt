-- ===== src/Tests/Reference.antt =====
-- A platform that works, as an instance of the parameters of Platform.antt: sqlite runs what SQL
-- documents, and the other libraries have the smallest functions that do what is assumed of them.
use mathlib.Core.Option.{some-injective}
use vcd.Base.{
  ℕ, ◌+◌, ◌-◌, ◌*◌, true, false, String, List, [], ◌∷◌, ◌++◌, Option, none, some, ◌≡◌, refl, subst,
  if◌then◌else◌, any, all, all_chars, starts_with, str_equal, code, arith,
}
use vcd.Base.Int.{ℤ, pos}
use vcd.Sql.{
  Contents, Schema, Stmt, insert, replace, delete, update, count, Query, conflicts, has_conflict,
  put_rows,
}
use vcd.Sql.Writes.{Does, DoesAll, replace_rows, delete_rows, update_rows}
use vcd.Sql.Answers.{Record, Steps, row, done, Runs, Completes, answer}
use vcd.Platform.{Platform, IsHealthy, is_digit, is_alnum, value_of, key_of, is_unrefused}
use vcd.Tests.Arrange.{arrange_rows, arrange_rows-Perm, arrange_rows-greatest}
use vcd.Vxdb.Tables.{vxdb_unique}
use vcd.Kernel.{Lstat, Exit, Info, Parsed}

unfoldable pub run_one : Schema → Stmt → Contents → Option Contents
unfolding conflicts has_conflict replace_rows delete_rows update_rows any
run_one keys (insert t r) c =
    if any (conflicts (keys t) r) (c t) then none else some (put_rows t (c t ++ r ∷ []) c)
run_one keys (replace t r) c = some (put_rows t (replace_rows (keys t) r (c t)) c)
run_one keys (delete t w) c = some (put_rows t (delete_rows w (c t)) c)
run_one keys (update t k v w) c =
    if has_conflict (keys t) (update_rows k v w (c t))
    then none
    else some (put_rows t (update_rows k v w (c t)) c)
run_one keys (count cs) c = some c

abbrev then_run : (Contents → Option Contents) → Option Contents → Option Contents
then_run f none = none
then_run f (some c) = f c

unfoldable pub run : Schema → List Stmt → Contents → Option Contents
unfolding run_one
run keys [] c = some c
run keys (s ∷ ss) c = then_run (run keys ss) (run_one keys s c)

run_one-Does :
    (keys : Schema) (s : Stmt) (c d : Contents) → run_one keys s c ≡ some d → Does keys s c d
unfolding run_one
run_one-Does keys (insert t r) c d e = (ground arith, ground arith)
run_one-Does keys (replace t r) c d e = ground arith
run_one-Does keys (delete t w) c d e = ground arith
run_one-Does keys (update t k v w) c d e = (ground arith, ground arith)
run_one-Does keys (count cs) c d e = λ t other. ground arith

run_of :
    (keys : Schema) (s : Stmt) (ss : List Stmt) (c d : Contents) (o : Option Contents)
    → run_one keys s c ≡ o
    → then_run (run keys ss) o ≡ some d
    → ((m : Contents) → run keys ss m ≡ some d → DoesAll keys ss m d)
    → DoesAll keys (s ∷ ss) c d
run_of keys s ss c d none first e rest = absurd (ground arith)
run_of keys s ss c d (some m) first e rest = (m, run_one-Does keys s c m first, rest m e)

pub run-DoesAll :
    (keys : Schema) (ss : List Stmt) (c d : Contents) → run keys ss c ≡ some d → DoesAll keys ss c d
unfolding run
run-DoesAll keys [] c d e = ground arith
run-DoesAll keys (s ∷ ss) c d e =
    run_of keys s ss c d (run_one keys s c) refl e (λ m. run-DoesAll keys ss m d)

unfoldable pub deliver : List Record → Steps
deliver [] = done
deliver (r ∷ rs) = row r (deliver rs)

pub deliver-Runs : (rs : List Record) → Runs rs (deliver rs)
unfolding deliver
deliver-Runs [] = tt
deliver-Runs (r ∷ rs) = (refl, deliver-Runs rs)

pub deliver-Runs_of :
    (q : Query) (c : Contents) (s : Steps)
    → some (deliver (answer arrange_rows q c)) ≡ some s
    → Runs (answer arrange_rows q c) s
deliver-Runs_of q c s e = subst (Runs _) (some-injective _ _ e) (deliver-Runs _)

pub deliver-Completes : (rs : List Record) → Completes (deliver rs)
unfolding deliver
deliver-Completes [] = tt
deliver-Completes (r ∷ rs) = deliver-Completes rs

pub run-total :
    (keys : Schema) (ss : List Stmt) (c : Contents)
    → all is_unrefused ss ≡ true
    → (d : Contents) × (run keys ss c ≡ some d)
unfolding run run_one all is_unrefused
run-total keys [] c h = (c, refl)
run-total keys (insert t r ∷ ss) c h = absurd (ground arith)
run-total keys (replace t r ∷ ss) c h = run-total keys ss _ (ground arith)
run-total keys (delete t w ∷ ss) c h = run-total keys ss _ (ground arith)
run-total keys (update t k v w ∷ ss) c h = absurd (ground arith)
run-total keys (count cs ∷ ss) c h = run-total keys ss _ (ground arith)

abbrev pub digits_to : ℕ → String → ℕ
digits_to n String.[] = n
digits_to n (String.◌∷◌ c s) = digits_to (n * 10 + (code c - 48)) s

-- A number is read where the text is one digit or more.
abbrev pub scan : String → Option ℕ
scan s =
    if str_equal s "" then none else if all_chars is_digit s then some (digits_to 0 s) else none

abbrev pub scan_signed : String → Option ℤ
scan_signed s = elim (scan s) [ none ↦ none | some n ↦ some (pos n) ]

unfoldable pub reference : Platform
unfolding run deliver answer arrange_rows value_of key_of all_chars vxdb_unique
reference = record {
  sqlite = record {
    exec = run vxdb_unique;
    prepare = λ q c. some (deliver (answer arrange_rows q c));
    arrange = arrange_rows;
    exec_sound = λ ss c d clean e. run-DoesAll vxdb_unique ss c d e;
    prepare_sound = λ q c s clean e. deliver-Runs_of q c s e;
    arrange_perm = arrange_rows-Perm;
    arrange_desc = arrange_rows-greatest;
  };
  lucid = record {
    str_isalnum = all_chars is_alnum;
    str_isalnum_chars = λ s e. e;
    str_isgraph = λ s. true;
    str_isascii = λ s. true;
    str_isdigit = all_chars is_digit;
    str_isdigit_chars = λ s e. e;
    str_path_isabs = λ s. starts_with s "/";
    str_path_concat = λ s t. some s;
    addr_from_str = λ s. if all_chars (λ c. is_digit c) s then pos 0 else pos 1;
    flist_getval = value_of;
    flist_getval_lem = λ l k. refl;
    flist_getkey = key_of;
    flist_getkey_lem = λ l v. refl;
    whirlpool_digest = λ s. "digest";
    whirlpool_digest_chars = λ s. refl;
    scan_int = scan_signed;
    scan_u32 = scan;
    scan_u64 = scan;
    tokens = λ s d. some (s ∷ []);
    first_bytes = λ n s. s;
    v2i32 = λ n. n;
    decimal = λ z. "0";
    decimal_chars = λ n. refl;
  };
  host = record {
    lock_held = λ name. false;
    processors = 4;
    memory_nodes = some ("node0" ∷ "node" ∷ []);
    getpagesize = 4096;
    vbasedir = "/vservers";
    accepts = λ h c. true;
    runs = λ h c. Exit.exited 0;
    output = λ h c. "";
    vx_info = λ h xid. Info.gone;
    nx_info = λ h xid. Info.gone;
    isdir = λ h path. false;
    ismount = λ h path. true;
    lstat = λ h path. Lstat.directory;
    ispath = λ h path. false;
    isfile = λ h path. false;
    templatedir = "/templates";
    cfg_parse = λ path. Parsed.parsed (record {
      description = none;
      init = none;
      halt = none;
      reboot = none;
      timeout = none;
      mounts = [];
      bcaps = none;
      ccaps = none;
      flags = none;
    });
    has_tagxid = λ h. true;
    same_device = λ h. true;
    template_files = λ h. [];
    user_version = λ c. some (pos 256);
    define = λ s c. some c;
    finalized_done = false;
    readdir = λ h path. some ("." ∷ ".." ∷ "base" ∷ []);
    vx_stat = λ h xid. none;
    vx_limit_stat = λ h xid id. record { minimum = 1; value = 2; maximum = 3 };
    nx_sock_stat = λ h xid id. record { count = (1, 2, 3); total = (4, 5, 6) };
    connects = λ h. true;
    getpid = 100;
    null_text = "";
    time = λ h. pos 1200000000;
    nftw = λ h vdir. [];
    vx_limit_mask = some (18446744073709551615, 18446744073709551615);
    node = λ p k. 1;
    node_pos = λ p k. omega arith;
    constant = λ k. 1;
    dlim_keep = 4294967294;
    dlim_infinity = 4294967295;
    rlim_keep = 18446744073709551614;
    rlim_infinity = 18446744073709551615;
  };
}

pub reference-IsHealthy : IsHealthy reference
unfolding reference
reference-IsHealthy = record {
  exec_total = λ ss c clean unrefused. run-total vxdb_unique ss c unrefused;
  prepare_total = λ q c clean. (_, refl, deliver-Completes (answer arrange_rows q c));
}
