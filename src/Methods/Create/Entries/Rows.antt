-- ===== src/Methods/Create/Entries/Rows.antt =====
-- The rows of a new virtual server.
use mathlib.Core.List.{append-nil}
use vcd.Base.{
  ℕ, Bool, true, String, List, [], ◌∷◌, ◌++◌, map, ◌≡◌, ◌≢◌, refl, ap, ◌∙◌, arith, str_equal,
  str_cat, all, All, inl, inr, Option-cases, some, if◌then◌else◌, any,
}
use vcd.Base.Int.{as_int}
use vcd.Platform.{Platform}
use vcd.Kernel.{Syscall, MountSection, Conf, parsed}
use vcd.Sql.{int, text, Row, Contents, Stmt, insert, stmt_clean}
use vcd.Sql.Writes.{DoesAll}
use vcd.Vxdb.Tables.{vxdb_unique}
use vcd.Vxdb.Rows.{rows_of, is_for, heads, DoesAll-others}
use vcd.Vxdb.Inserts.{
  is_insert, inserted, inserted-append, inserted-map, DoesAll-append, DoesAll-inserted,
}
use vcd.Call.{State, ok, vxdb_exec, exec_or_fault, looks}
use vcd.Call.Fetch.{fault_if-then}
use vcd.Methods.Common.{or_default, text_of}
use vcd.Methods.Server.Removal.{deleted-all, is_in}
use vcd.Methods.Create.Files.{or_clean}
use vcd.Methods.Create.Entries.{
  create_vxdb_entries, config_path, entries, additions, renewal, renewed_tables, insert_mounts,
  insert_section, insert_words, or_defaults, timeout_or_default, default_bcaps, default_ccaps,
  default_flags,
}

all-append :
    (f : Stmt → Bool) (xs ys : List Stmt)
    → all f xs ≡ true
    → all f ys ≡ true
    → all f (xs ++ ys) ≡ true
unfolding all
all-append f [] ys h k = k
all-append f (x ∷ xs) ys h k = ground (arith, all-append f xs ys (ground arith) k)

all-cons :
    (f : Stmt → Bool) (x : Stmt) (xs : List Stmt)
    → f x ≡ true
    → all f xs ≡ true
    → all f (x ∷ xs) ≡ true
unfolding all
all-cons f x xs h k = ground arith

all-nil : (f : Stmt → Bool) → all f [] ≡ true
unfolding all
all-nil f = refl

all-map :
    {A : Type 0} (f : Stmt → Bool) (g : A → Stmt) (l : List A)
    → ((a : A) → f (g a) ≡ true)
    → all f (map g l) ≡ true
unfolding all
all-map f g [] h = refl
all-map f g (a ∷ l) h = ground (arith, h a, all-map f g l h)

module _ ⦃p : Platform⦄ (n : ℕ) where
  -- A test that the statement of any row of the context id passes.
  abbrev Passes : (Stmt → Bool) → Type 0
  Passes f = (t : String) (r : Row) → f (insert t (("xid", int (as_int n)) ∷ r)) ≡ true

  mounts_pass :
      (f : Stmt → Bool) (l : List MountSection) → Passes f → all f (insert_mounts n l) ≡ true
  mounts_pass f [] h = all-cons f _ _ (h "mount" _) (all-cons f _ _ (h "mount" _) (all-nil f))
  mounts_pass f (s ∷ l) h = all-map f (insert_section n) (s ∷ l) (λ a. h "mount" _)

  words_pass :
      (f : Stmt → Bool) (t column : String) (ws : List String)
      → Passes f
      → all f (insert_words n t column ws) ≡ true
  words_pass f t column ws h = all-map f _ ws (λ w. h t _)

  additions_pass :
      (f : Stmt → Bool) (name vdir : String) (c : Conf)
      → Passes f
      → all f (additions n name vdir c) ≡ true
  additions_pass f name vdir c h = all-cons f _ _ (h "init" _) (
      all-append f _ _ (mounts_pass f c.mounts h) (
        all-append f _ _ (words_pass f "vx_bcaps" "bcap" _ h) (
          all-append f _ _ (words_pass f "vx_ccaps" "ccap" _ h) (
            all-append f _ _ (words_pass f "vx_flags" "flag" _ h)
              (all-cons f _ _ (h "vdir" _) (all-cons f _ _ (h "xid_name_map" _) (all-nil f)))))))

  abbrev mount_row : String → String → String → String → Row
  mount_row src dst type opts =
      ("xid", int (as_int n))
      ∷ ("src", text src)
      ∷ ("dst", text dst)
      ∷ ("type", text type)
      ∷ ("opts", text opts)
      ∷ []

  pass_insert : Passes (is_insert n)
  unfolding is_insert heads
  pass_insert t r = ground arith

  pass_for : Passes (is_for n)
  unfolding is_for heads
  pass_for t r = ground arith

  renewal-for : all (is_for n) (renewal n) ≡ true
  unfolding all is_for heads
  renewal-for = ground arith

  abbrev section_row : MountSection → Row
  section_row s = mount_row (text_of s.src) s.dst (text_of s.type) (text_of s.opts)

  abbrev mount_rows : List MountSection → List Row
  mount_rows [] =
      mount_row "none" "/proc" "proc" "defaults"
      ∷ mount_row "none" "/dev/pts" "devpts" "defaults"
      ∷ []
  mount_rows (s ∷ ss) = map section_row (s ∷ ss)

  -- The new rows of each table.
  unfoldable pub new_rows : String → String → Conf → String → List Row
  new_rows name vdir c u =
      let row : Row → Row = λ r. ("xid", int (as_int n)) ∷ r in
      if str_equal "init" u
      then row (
          ("init", text (or_default c.init "/sbin/init"))
          ∷ ("halt", text (or_default c.halt "/sbin/halt"))
          ∷ ("reboot", text (or_default c.reboot "/sbin/reboot"))
          ∷ ("timeout", int (timeout_or_default c.timeout))
          ∷ [])
        ∷ []
      else if str_equal "mount" u
      then mount_rows c.mounts
      else if str_equal "vx_bcaps" u
      then map (λ w. row (("bcap", text w) ∷ [])) (or_defaults c.bcaps default_bcaps)
      else if str_equal "vx_ccaps" u
      then map (λ w. row (("ccap", text w) ∷ [])) (or_defaults c.ccaps default_ccaps)
      else if str_equal "vx_flags" u
      then map (λ w. row (("flag", text w) ∷ [])) (or_defaults c.flags default_flags)
      else if str_equal "vdir" u
      then row (("vdir", text vdir) ∷ []) ∷ []
      else if str_equal "xid_name_map" u
      then row (("name", text name) ∷ []) ∷ []
      else []

  inserted-both :
      (u : String) (xs ys : List Stmt) (k l : List Row)
      → inserted u xs ≡ k
      → inserted u ys ≡ l
      → inserted u (xs ++ ys) ≡ k ++ l
  inserted-both u xs ys k l e f =
      inserted-append u xs ys ∙ ap (λ z. z ++ inserted u ys) e ∙ ap (λ z. k ++ z) f

  inserted-mounts :
      (u : String) (l : List MountSection)
      → inserted u (insert_mounts n l) ≡ (if str_equal "mount" u then mount_rows l else [])
  unfolding inserted
  inserted-mounts u [] = ground arith
  inserted-mounts u (s ∷ l) = inserted-map u "mount" section_row (s ∷ l)

  -- What the statements add, table by table.
  abbrev added : String → String → Conf → String → List Row
  added name vdir c u =
      (if str_equal "init" u then new_rows name vdir c "init" else [])
      ++ ((if str_equal "mount" u then mount_rows c.mounts else [])
          ++ ((if str_equal "vx_bcaps" u then new_rows name vdir c "vx_bcaps" else [])
              ++ ((if str_equal "vx_ccaps" u then new_rows name vdir c "vx_ccaps" else [])
                  ++ ((if str_equal "vx_flags" u then new_rows name vdir c "vx_flags" else [])
                      ++ ((if str_equal "vdir" u then new_rows name vdir c "vdir" else [])
                          ++ ((if str_equal "xid_name_map" u
                                then new_rows name vdir c "xid_name_map"
                                else [])
                              ++ []))))))

  inserted-added :
      (name vdir : String) (c : Conf) (u : String)
      → inserted u (additions n name vdir c) ≡ added name vdir c u
  unfolding inserted new_rows
  inserted-added name vdir c u =
      let bcaps = or_defaults c.bcaps default_bcaps in
      let ccaps = or_defaults c.ccaps default_ccaps in
      let flags = or_defaults c.flags default_flags in
      let row : Row → Row = λ r. ("xid", int (as_int n)) ∷ r in
      let named : List Stmt =
        insert "vdir" (row (("vdir", text vdir) ∷ []))
        ∷ insert "xid_name_map" (row (("name", text name) ∷ []))
        ∷ [] in
      let with_flags : List Stmt = insert_words n "vx_flags" "flag" flags ++ named in
      let with_ccaps : List Stmt = insert_words n "vx_ccaps" "ccap" ccaps ++ with_flags in
      let with_bcaps : List Stmt = insert_words n "vx_bcaps" "bcap" bcaps ++ with_ccaps in
      let rest : List Stmt = insert_mounts n c.mounts ++ with_bcaps in
      ap (λ l. (if str_equal "init" u then new_rows name vdir c "init" else []) ++ l)
        (inserted-both u (insert_mounts n c.mounts) with_bcaps _ _ (inserted-mounts u c.mounts) (
          inserted-both u (insert_words n "vx_bcaps" "bcap" bcaps) with_ccaps _ _
            (inserted-map u "vx_bcaps" (λ w. row (("bcap", text w) ∷ [])) bcaps)
            (inserted-both u (insert_words n "vx_ccaps" "ccap" ccaps) with_flags _ _
              (inserted-map u "vx_ccaps" (λ w. row (("ccap", text w) ∷ [])) ccaps)
              (inserted-both u (insert_words n "vx_flags" "flag" flags) named _ _
                (inserted-map u "vx_flags" (λ w. row (("flag", text w) ∷ [])) flags) refl))))

  -- The rows of the context id are the new ones.
  abbrev pub Has : Contents → String → String → Conf → String → Type 0
  Has d name vdir c u = rows_of n (d u) ≡ new_rows name vdir c u

  entries-rows :
      (name vdir : String) (c : Conf) (d e : Contents)
      → DoesAll vxdb_unique (entries n name vdir c) d e
      → (u : String) → is_in u renewed_tables ≡ true
      → rows_of n (e u) ≡ added name vdir c u
  entries-rows name vdir c d e does u there =
      let (m, first, rest) = DoesAll-append (renewal n) (additions n name vdir c) d e does in
      DoesAll-inserted _ n u m e (additions_pass (is_insert n) name vdir c pass_insert) rest
      ∙ ap (λ l. l ++ inserted u (additions n name vdir c))
          (deleted-all renewed_tables u n d m first (inl there))
      ∙ inserted-added name vdir c u

  entries-others :
      (name vdir : String) (c : Conf) (d e : Contents) (x : ℕ)
      → DoesAll vxdb_unique (entries n name vdir c) d e
      → x ≢ n
      → (u : String) → rows_of x (e u) ≡ rows_of x (d u)
  entries-others name vdir c d e x does other =
      DoesAll-others (entries n name vdir c) x n d e
        (all-append (is_for n) _ _ renewal-for (additions_pass (is_for n) name vdir c pass_for))
        other does

  entries-Has :
      (name vdir : String) (c : Conf) (d e : Contents)
      → DoesAll vxdb_unique (entries n name vdir c) d e
      → All (Has e name vdir c) renewed_tables
  unfolding new_rows any
  entries-Has name vdir c d e does =
      let at = entries-rows name vdir c d e does in
      (
        at "dx_limit" refl,
        (
          at "init" refl,
          (
            at "mount" refl ∙ append-nil _,
            (
              at "nx_addr" refl,
              (
                at "nx_broadcast" refl,
                (
                  at "restart" refl,
                  (
                    at "vdir" refl,
                    (
                      at "vx_bcaps" refl ∙ append-nil _,
                      (
                        at "vx_ccaps" refl ∙ append-nil _,
                        (
                          at "vx_flags" refl ∙ append-nil _,
                          (
                            at "vx_limit" refl,
                            (
                              at "vx_sched" refl,
                              (at "vx_uname" refl, (at "xid_name_map" refl, tt)),
                            ),
                          ),
                        ),
                      ),
                    ),
                  ),
                ),
              ),
            ),
          ),
        ),
      )

module _ ⦃p : Platform⦄ where
  -- Statements that set no fault went through.
  written :
      (ss : List Stmt) (c : Syscall) (s t : State)
      → or_clean (exec_or_fault ss) c s ≡ (ok tt, t)
      → p.exec ss s.db ≡ some t.db
  unfolding or_clean exec_or_fault vxdb_exec
  written ss c s t e = elim (Option-cases (p.exec ss s.db)) [
    | inl refused ↦
        absurd
          (let e' = rw (refused, exec_or_fault, vxdb_exec, or_clean) at e in ground (arith, e'))
    | inr (d, went) ↦
        let e' = rw (went, exec_or_fault, vxdb_exec, or_clean) at e in
        went ∙ ap (λ z. some z.1.db) e'
  ]

  -- When the rows of a new virtual server are written, and no text of the statements has a quote, the
  -- rows of its context id in each of the fourteen tables are those of the template's configuration, or
  -- the defaults, with its directory and its name, and no row of another context id has changed.
  pub create_vxdb_entries-Has :
      (xid : ℕ) (name vdir tdir : String) (c : Conf) (s t : State)
      → p.cfg_parse (config_path (p.isfile s.calls (str_cat tdir ".conf")) tdir) ≡ parsed c
      → all stmt_clean (entries xid name vdir c) ≡ true
      → create_vxdb_entries xid name vdir tdir s ≡ (ok tt, t)
      → All (Has xid t.db name vdir c) renewed_tables
        × ((x : ℕ) → x ≢ xid → (u : String) → rows_of x (t.db u) ≡ rows_of x (s.db u))
  unfolding create_vxdb_entries looks
  create_vxdb_entries-Has xid name vdir tdir c s t reads clean e =
      let e1 = rw reads at e in
      let (_, e2) = fault_if-then _ _ _ s t tt e1 in
      let does = p.exec_sound (entries xid name vdir c) s.db t.db clean (written _ _ s t e2) in
      (
        entries-Has xid name vdir c s.db t.db does,
        λ x other u. entries-others xid name vdir c s.db t.db x does other u,
      )
