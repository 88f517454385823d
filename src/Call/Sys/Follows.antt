-- ===== src/Call/Sys/Follows.antt =====
-- Steps that follow a plan: the calls that they make are the first ones of it, and all of it if no
-- fault is set.
use mathlib.Core.List.{append_assoc, append-nil}
use vcd.Base.{
  Bool, true, false, List, [], ◌∷◌, ◌++◌, Option, none, some, ◌≡◌, refl, sym, ap, subst, ◌∙◌, arith,
  Bool-cases, inl, inr, if◌then◌else◌,
}
use vcd.Sql.{Query, query_clean}
use vcd.Sql.Answers.{Record, Steps, answer}
use vcd.Platform.{Platform}
use vcd.Kernel.{Syscall}
use vcd.Vxdb.{vxdb_foreach_step}
use vcd.Call.{
  State, Result, ok, fault, Fault, M, pure, ◌>>=◌, continue, fault_if, fetch, step_rows, all_rows,
}
use vcd.Call.Fetch.{fetch_sound}
use vcd.Call.Sys.{sys, must, must_if}

-- The state in which these calls have been made as well.
abbrev pub called : State → List Syscall → State
called s cs = record s { calls = s.calls ++ cs }

-- How a sequence of steps that started in the state `s` ended.
pub record FollowsAt {A : Type 0} (end : Result A × State) (s : State) (plan : List Syscall)
    : Type 0 where
  pub made : List Syscall
  pub left : List Syscall
  pub split : plan ≡ made ++ left
  pub after : end.1 ≡ called s made
  pub whole : (a : A) → end.0 ≡ ok a → left ≡ []

abbrev pub Follows : {A : Type 0} → M A → State → List Syscall → Type 0
Follows m s plan = FollowsAt (m s) s plan

called-called : (s : State) (cs ds : List Syscall) → called (called s cs) ds ≡ called s (cs ++ ds)
called-called s cs ds = ap (λ h. record s { calls = h }) (append_assoc s.calls cs ds)

called-nil : (s : State) → called s [] ≡ s
called-nil s = ap (λ h. record s { calls = h }) (append-nil s.calls)

module _ {A : Type 0} where
  pub FollowsAt-fault :
      (f : Fault) (s : State) (plan : List Syscall) → FollowsAt {A = A} (fault f, s) s plan
  FollowsAt-fault f s plan = record {
    made = [];
    left = plan;
    split = refl;
    after = sym (called-nil s);
    whole = λ a e. absurd (ground arith);
  }

  pub Follows-pure : (a : A) (s : State) → Follows (pure a) s []
  Follows-pure a s = record {
    made = [];
    left = [];
    split = refl;
    after = sym (called-nil s);
    whole = λ b e. refl;
  }

module _ {A B : Type 0} where
  bind_of :
      (r : Result A) (s' : State) (f : A → M B) (s : State) (p q : List Syscall)
      → FollowsAt (r, s') s p
      → ((a : A) → r ≡ ok a → Follows (f a) (called s p) q)
      → FollowsAt (continue r f s') s (p ++ q)
  bind_of (fault x) s' f s p q h rest = record {
    made = h.made;
    left = h.left ++ q;
    split = ap (λ l. l ++ q) h.split ∙ append_assoc h.made h.left q;
    after = h.after;
    whole = λ b e. absurd (ground arith);
  }
  bind_of (ok a) s' f s p q h rest =
      let all_made : p ≡ h.made =
        h.split ∙ ap (λ l. h.made ++ l) (h.whole a refl) ∙ append-nil h.made in
      let here : s' ≡ called s p = h.after ∙ ap (called s) (sym all_made) in
      let next = rest a refl in
      let same = ap (f a) here in
      record {
        made = p ++ next.made;
        left = next.left;
        split = ap (λ l. p ++ l) next.split ∙ sym (append_assoc p next.made next.left);
        after = ap (λ z. z.1) same ∙ next.after ∙ called-called s p next.made;
        whole = λ b e. next.whole b (sym (ap (λ z. z.0) same) ∙ e);
      }

  -- The second part follows its plan in the state that the first one leaves.
  pub Follows-bind :
      (m : M A) (f : A → M B) (s : State) (p q : List Syscall)
      → Follows m s p
      → ((a : A) → (m s).0 ≡ ok a → Follows (f a) (called s p) q)
      → Follows (m >>= f) s (p ++ q)
  Follows-bind m f s p q h rest = let (r, s') = m s in bind_of r s' f s p q h rest

module _ ⦃p : Platform⦄ where
  all_rows-state : (e : List Record × Bool) (s : State) → (all_rows e s).1 ≡ s
  all_rows-state (rs, true) s = refl
  all_rows-state (rs, false) s = refl

  step_rows-state : (o : Option Steps) (s : State) → (step_rows o s).1 ≡ s
  step_rows-state none s = refl
  step_rows-state (some steps) s = all_rows-state (vxdb_foreach_step steps) s

  pub fetch-state : (q : Query) (s : State) → (fetch q s).1 ≡ s
  unfolding fetch
  fetch-state q s = step_rows-state (p.prepare q s.db) s

module _ ⦃p : Platform⦄ {A : Type 0} where
  pub Follows-sys :
      (c : Syscall) (f : Bool → M A) (s : State) (plan : List Syscall)
      → ((b : Bool) → Follows (f b) (called s (c ∷ [])) plan)
      → Follows (sys c >>= f) s (c ∷ plan)
  unfolding sys
  Follows-sys c f s plan h =
      Follows-bind (sys c) f s (c ∷ []) plan
        (record { made = c ∷ []; left = []; split = refl; after = refl; whole = λ a e. refl })
        (λ b e. h b)

  fetched-Follows :
      (q : Query) (f : List Record → M A) (s t : State) (plan : List Syscall)
      (r : Result (List Record))
      → query_clean q ≡ true
      → fetch q s ≡ (r, t)
      → Follows (f (answer p.arrange q s.db)) s plan
      → FollowsAt (continue r f t) s plan
  fetched-Follows q f s t plan (fault x) clean e h =
      subst (λ u. FollowsAt {A = A} (fault x, u) s plan) (sym (fetch-state q s) ∙ ap (λ z. z.1) e)
        (FollowsAt-fault x s plan)
  fetched-Follows q f s t plan (ok rs) clean e h =
      let (all, same) = fetch_sound q s t rs clean e in
      subst (λ u. FollowsAt (f u t) s plan) (sym all)
        (subst (λ u. FollowsAt (f (answer p.arrange q s.db) u) s plan) (sym same) h)

  -- Every row of a well-formed query is there, or a fault is set.
  pub Follows-fetch :
      (q : Query) (f : List Record → M A) (s : State) (plan : List Syscall)
      → query_clean q ≡ true
      → Follows (f (answer p.arrange q s.db)) s plan
      → Follows (fetch q >>= f) s plan
  Follows-fetch q f s plan clean h =
      let (r, t) = fetch q s in fetched-Follows q f s t plan r clean refl h

module _ ⦃p : Platform⦄ where
  pub Follows-must : (c : Syscall) (s : State) → Follows (must c) s (c ∷ [])
  unfolding must sys fault_if
  Follows-must c s = elim (Bool-cases (p.accepts s.calls c)) [
    | inl went ↦
        rw (went, must, sys, fault_if)
          (record { made = c ∷ []; left = []; split = refl; after = refl; whole = λ a e. refl })
    | inr refused ↦
        rw (refused, must, sys, fault_if)
          (record { made = c ∷ []; left = []; split = refl; after = refl; whole = λ a e. refl })
  ]

  pub Follows-must_if :
      (b : Bool) (c : Syscall) (s : State) → Follows (must_if b c) s (if b then c ∷ [] else [])
  unfolding must_if
  Follows-must_if true c s = Follows-must c s
  Follows-must_if false c s = Follows-pure tt s
