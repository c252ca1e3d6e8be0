-- ===== src/Monitoring/Registration.antt =====
-- The default registry of Prometheus, which `promauto` registers every metric with. A name that is already
-- registered makes `promauto` panic, as its documentation says.
use sync_hook.Prelude.{
  String, List, [], ◌∷◌, Bool, true, false, not, ◌&&◌, ◌||◌, ◌≡◌, ◌⊎◌, refl, inl, inr, ◌==◌,
  string_eq, Run, returns, panics, Returns, ◌>>=◌, returns-injective, Returns-inversion, ap, sym,
  Bool-cases, arith,
}

pub record Registry : Type 1 where
  pub State : Type 0
  pub has : String → State → Bool
  pub must_register : String → State → Run State

-- Any other name stays as it was.
pub record IsLawful (reg : Registry) : Type 0 where
  pub again :
      (name : String) (r : reg.State) → reg.has name r ≡ true → reg.must_register name r ≡ panics
  pub fresh :
      (name : String) (r : reg.State)
      → reg.has name r ≡ false
      → Returns
          (reg.must_register name r)
          (λ r'. (other : String) → reg.has other r' ≡ (name == other || reg.has other r))

abbrev pub is_in : String → List String → Bool
is_in name [] = false
is_in name (n ∷ names) = n == name || is_in name names

abbrev pub distinct : List String → Bool
distinct [] = true
distinct (n ∷ names) = not (is_in n names) && distinct names

module _ (reg : Registry) where
  -- The fields of a constructor's literal, in the order in which they are registered.
  unfoldable pub register_all : List String → reg.State → Run reg.State
  register_all [] r = returns r
  register_all (name ∷ names) r = reg.must_register name r >>= λ r'. register_all names r'

  module _ (law : IsLawful reg) where
    -- The next name is taken, or it is registered.
    register-cases :
        (name : String) (r : reg.State)
        → ((reg.has name r ≡ true) × (reg.must_register name r ≡ panics))
          ⊎ ((r' : reg.State) × (reg.has name r ≡ false)
              × (reg.must_register name r ≡ returns r')
              × ((other : String) → reg.has other r' ≡ (name == other || reg.has other r)))
    register-cases name r = elim (Bool-cases (reg.has name r)) [
      | inl taken ↦ inl (taken, law.again name r taken)
      | inr free ↦ inr (
          let (r', e, grows) =
            Returns-inversion
              (λ r'. (other : String) → reg.has other r' ≡ (name == other || reg.has other r))
              (reg.must_register name r) (law.fresh name r free) in
          (r', free, e, grows))
    ]

    pub register_all-panics :
        (name : String) (names : List String) (r : reg.State)
        → is_in name names ≡ true
        → reg.has name r ≡ true
        → register_all names r ≡ panics
    unfolding register_all
    register_all-panics name [] r m h = cc
    register_all-panics name (n ∷ names) r m h = elim (register-cases n r) [
      | inl (taken, e) ↦ rw (register_all, e) refl
      | inr (r', free, e, grows) ↦
          rw (register_all, e)
            (register_all-panics name names r' (ground (arith, string_eq.beq_iff n name))
              (ground (arith, grows name)))
    ]

    pub register_all-has :
        (names : List String) (r r' : reg.State) (name : String)
        → register_all names r ≡ returns r'
        → reg.has name r' ≡ (is_in name names || reg.has name r)
    unfolding register_all
    register_all-has [] r r' name e = ap (λ x. reg.has name x) (sym (returns-injective _ _ e))
    register_all-has (n ∷ names) r r' name e = elim (register-cases n r) [
      | inl (taken, p) ↦ absurd (cc)
      | inr (r₁, free, p, grows) ↦
          ground (arith, register_all-has names r₁ r' name (rw (register_all, p) at e), grows name)
    ]

    pub register_all-returns :
        (names : List String) (r : reg.State)
        → distinct names ≡ true
        → ((name : String) → is_in name names ≡ true → reg.has name r ≡ false)
        → (r' : reg.State) × (register_all names r ≡ returns r')
    unfolding register_all
    register_all-returns [] r d free = (r, refl)
    register_all-returns (n ∷ names) r d free = elim (register-cases n r) [
      | inl (taken, e) ↦ absurd (ground (arith, free n, string_eq.beq_iff n n))
      | inr (r', free_n, e, grows) ↦
          rw (register_all, e)
            (register_all-returns names r' (ground arith)
              (λ name m. ground (arith, free name, grows name, string_eq.beq_iff n name)))
    ]
