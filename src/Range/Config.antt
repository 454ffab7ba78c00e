-- ===== src/Range/Config.antt =====
-- `uvm_config_db<logic::range>::set` and `get`.
use logic.Base.{ℕ, ◌≡◌, ◌≢◌, Bool, true, false, Option, none, some, arith, sym, ◌∙◌}
use mathlib.Core.Bool.{false≢true}
use text.Mathlib.TextEquality.{eq_iff}
use text.Mathlib.TextLemmas.{append_cancel_left, append-nil}
use Prim.Native.String.{String, ◌++◌}
use logic.Range.{Range, IsOrdered, of_bounds}

-- What `set` and `get` of sizes do for one component and instance name: `get` returns what was last
-- set under that field name, and a `set` of one field leaves the others alone.
pub record ConfigDb : Type 1 where
  pub State : Type 0
  pub set : State → String → ℕ → State
  pub get : State → String → Option ℕ
  pub get-set_self : (s : State) (f : String) (v : ℕ) → get (set s f v) f ≡ some v
  pub get-set_ne : (s : State) (f g : String) (v : ℕ) → f ≢ g → get (set s f v) g ≡ get s g

-- What `get` makes of the fields `.min` and `.max`; `value` starts as a pair of zeros, and the out
-- parameter keeps its value where nothing was found.
unfoldable pub bounds : Option ℕ → Option ℕ → Range → Bool × Range
bounds none none value_range = (false, value_range)
bounds (some first) none value_range = (true, of_bounds first 0)
bounds none (some second) value_range = (true, of_bounds 0 second)
bounds (some first) (some second) value_range = (true, of_bounds first second)

unfoldable pub found : Option ℕ → Bool × Range → Bool × Range
found (some first) otherwise = (true, of_bounds first first)
found none otherwise = otherwise

separate : (f : String) → f ++ ".min" ≢ f ++ ".max"
separate f e = false≢true ((eq_iff ".min" ".max").1 (append_cancel_left f ".min" ".max" e))

bare : (f suffix : String) → suffix ≢ "" → f ++ suffix ≢ f
bare f suffix ne e = ne (append_cancel_left f suffix "" (e ∙ sym (append-nil f)))

abbrev of_both : Range → Bool × Range
of_both value = (true, of_bounds value.m_min value.m_max)

module _ (db : ConfigDb) where
  open db use {State, set, get, get-set_self, get-set_ne}

  unfoldable pub set_range : State → String → Range → State
  set_range s fieldname value =
      set (set s (fieldname ++ ".min") value.m_min) (fieldname ++ ".max") value.m_max

  unfoldable pub get_range : State → String → Range → Bool × Range
  get_range s fieldname value_range =
      found (get s fieldname)
        (bounds (get s (fieldname ++ ".min")) (get s (fieldname ++ ".max")) value_range)

  -- An ordered range that was set in the configuration database is what `get` then returns, when
  -- the bare field was not set.
  pub get_range-set_range :
      (s : State) (fieldname : String) (value old : Range)
      → IsOrdered value
      → get s fieldname ≡ none
      → get_range (set_range s fieldname value) fieldname old ≡ (true, value)
  unfolding get_range set_range found bounds of_bounds
  get_range-set_range s fieldname value old ordered unset = rw (no_bare, first, second) joined
    where
      no_bare :
          get
            (set (set s (fieldname ++ ".min") value.m_min) (fieldname ++ ".max") value.m_max)
            fieldname
          ≡ none
      no_bare =
          get-set_ne (set s (fieldname ++ ".min") value.m_min) (fieldname ++ ".max") fieldname
            value.m_max (bare fieldname ".max" (λ e. false≢true ((eq_iff ".max" "").1 e)))
          ∙ get-set_ne s (fieldname ++ ".min") fieldname value.m_min
              (bare fieldname ".min" (λ e. false≢true ((eq_iff ".min" "").1 e)))
          ∙ unset

      first :
          get
            (set (set s (fieldname ++ ".min") value.m_min) (fieldname ++ ".max") value.m_max)
            (fieldname ++ ".min")
          ≡ some value.m_min
      first =
          get-set_ne (set s (fieldname ++ ".min") value.m_min) (fieldname ++ ".max")
            (fieldname ++ ".min") value.m_max (λ e. separate fieldname (sym e))
          ∙ get-set_self s (fieldname ++ ".min") value.m_min

      second :
          get
            (set (set s (fieldname ++ ".min") value.m_min) (fieldname ++ ".max") value.m_max)
            (fieldname ++ ".max")
          ≡ some value.m_max
      second =
          get-set_self (set s (fieldname ++ ".min") value.m_min) (fieldname ++ ".max") value.m_max

      joined : of_both value ≡ (true, value)
      joined = ground arith

  -- With none of the three fields set, `get` fails and leaves the range alone.
  get_range_missing :
      (s : State) (fieldname : String) (old : Range)
      → get s fieldname ≡ none
      → get s (fieldname ++ ".min") ≡ none
      → get s (fieldname ++ ".max") ≡ none
      → get_range s fieldname old ≡ (false, old)
  unfolding get_range found bounds
  get_range_missing s fieldname old no_bare no_min no_max = rw (no_bare, no_min, no_max)
