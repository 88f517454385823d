-- ===== src/Call/Laws.antt =====
-- What a successful sequence of steps says of its parts.
use vcd.Base.{Bool, String, Option, none, some, ◌≡◌, refl, arith, ◌⊎◌, inl, inr}
use vcd.Base.Int.{ℤ}
use vcd.Call.{
  State, Fault, Result, ok, fault, M, continue, ◌>>=◌, pure, raise, xmlrpc, Params, Member, str,
  num, flag, member, get_str, get_int, get_bool,
}

module _ {A B : Type 0} where
  continue-ok :
      (r : Result A) (f : A → M B) (s t : State) (b : B)
      → continue r f s ≡ (ok b, t)
      → (a : A) × (r ≡ ok a) × (f a s ≡ (ok b, t))
  continue-ok (ok a) f s t b e = (a, refl, e)
  continue-ok (fault x) f s t b e = absurd (ground arith)

  -- A sequence succeeds by its first step.
  pub >>=-ok :
      (m : M A) (f : A → M B) (s t : State) (b : B)
      → (m >>= f) s ≡ (ok b, t)
      → (a : A) × ((m s).0 ≡ ok a) × (f a (m s).1 ≡ (ok b, t))
  >>=-ok m f s t b e = let (r, s') = m s in continue-ok r f s' t b e

  continue-fault :
      (r : Result A) (f : A → M B) (s : State) (x : Fault)
      → r ≡ fault x
      → continue r f s ≡ (fault x, s)
  continue-fault (ok a) f s x e = absurd (ground arith)
  continue-fault (fault y) f s x e = ground arith

  -- A fault ends a sequence where it is set.
  pub >>=-fault :
      (m : M A) (f : A → M B) (s : State) (x : Fault)
      → (m s).0 ≡ fault x
      → (m >>= f) s ≡ (fault x, (m s).1)
  >>=-fault m f s x e = let (r, s') = m s in continue-fault r f s' x e

get_str-of :
    (k : String) (ps : Params) (o : Option Member)
    → member k ps ≡ o
    → ((v : String) × (member k ps ≡ some (str v)) × (get_str k ps ≡ pure v))
      ⊎ (get_str k ps ≡ raise xmlrpc)
unfolding get_str
get_str-of k ps none e = inr (rw e)
get_str-of k ps (some (str v)) e = inl (v, e, rw e)
get_str-of k ps (some (num z)) e = inr (rw e)
get_str-of k ps (some (flag b)) e = inr (rw e)

-- A member of a request is a text, or the request does not decompose.
pub get_str-cases :
    (k : String) (ps : Params)
    → ((v : String) × (member k ps ≡ some (str v)) × (get_str k ps ≡ pure v))
      ⊎ (get_str k ps ≡ raise xmlrpc)
get_str-cases k ps = get_str-of k ps (member k ps) refl

get_int-of :
    (k : String) (ps : Params) (o : Option Member)
    → member k ps ≡ o
    → ((v : ℤ) × (get_int k ps ≡ pure v)) ⊎ (get_int k ps ≡ raise xmlrpc)
unfolding get_int
get_int-of k ps none e = inr (rw e)
get_int-of k ps (some (str v)) e = inr (rw e)
get_int-of k ps (some (num z)) e = inl (z, rw e)
get_int-of k ps (some (flag b)) e = inr (rw e)

pub get_int-cases :
    (k : String) (ps : Params) → ((v : ℤ) × (get_int k ps ≡ pure v)) ⊎ (get_int k ps ≡ raise xmlrpc)
get_int-cases k ps = get_int-of k ps (member k ps) refl

get_bool-of :
    (k : String) (ps : Params) (o : Option Member)
    → member k ps ≡ o
    → ((v : Bool) × (get_bool k ps ≡ pure v)) ⊎ (get_bool k ps ≡ raise xmlrpc)
unfolding get_bool
get_bool-of k ps none e = inr (rw e)
get_bool-of k ps (some (str v)) e = inr (rw e)
get_bool-of k ps (some (num z)) e = inr (rw e)
get_bool-of k ps (some (flag b)) e = inl (b, rw e)

pub get_bool-cases :
    (k : String) (ps : Params)
    → ((v : Bool) × (get_bool k ps ≡ pure v)) ⊎ (get_bool k ps ≡ raise xmlrpc)
get_bool-cases k ps = get_bool-of k ps (member k ps) refl

pub get_str-pure :
    (k : String) (ps : Params) (v : String) → member k ps ≡ some (str v) → get_str k ps ≡ pure v
unfolding get_str
get_str-pure k ps v e = rw e

pub get_int-num :
    (k : String) (ps : Params) (v : ℤ) → member k ps ≡ some (num v) → get_int k ps ≡ pure v
unfolding get_int
get_int-num k ps v e = rw e

pub get_bool-flag :
    (k : String) (ps : Params) (b : Bool) → member k ps ≡ some (flag b) → get_bool k ps ≡ pure b
unfolding get_bool
get_bool-flag k ps b e = rw e
