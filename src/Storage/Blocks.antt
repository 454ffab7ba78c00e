-- ===== src/Storage/Blocks.antt =====
-- Block copies and fills stay inside their buffers when the count does, and what they leave.
use mathlib.Core.Option
use logic.Base.{
  ℕ, zero, suc, ◌≤◌, ◌<◌, ◌≡◌, ◌≢◌, refl, ap, none, some, List, [], ◌∷◌, ◌++◌, arith, length, take,
  drop, replicate, get_elem?,
}
use logic.Storage.{copy_n, fill_n, modify}
use logic.Storage.Number.{IsByte, AreBytes}

pub copy_n_lem :
    (src : List ℕ) (n : ℕ) (dst : List ℕ)
    → n ≤ length src
    → n ≤ length dst
    → copy_n src n dst ≡ some (take n src ++ drop n dst)
unfolding copy_n
copy_n_lem src zero dst h k = refl
copy_n_lem [] (suc n) dst h k = absurd (omega arith)
copy_n_lem (s ∷ src) (suc n) [] h k = absurd (omega arith)
copy_n_lem (s ∷ src) (suc n) (d ∷ dst) h k =
    ap (Option.map (λ rest. s ∷ rest)) (copy_n_lem src n dst (omega arith) (omega arith))

pub fill_n_lem :
    (dst : List ℕ) (n val : ℕ)
    → n ≤ length dst
    → fill_n dst n val ≡ some (replicate n val ++ drop n dst)
unfolding fill_n
fill_n_lem dst zero val h = refl
fill_n_lem [] (suc n) val h = absurd (omega arith)
fill_n_lem (d ∷ dst) (suc n) val h =
    ap (Option.map (λ rest. val ∷ rest)) (fill_n_lem dst n val (omega arith))

-- What a write at index `i` leaves: the new byte there, all others as they were.
pub record Modified (f : ℕ → ℕ) (bits : List ℕ) (i : ℕ) : Type 0 where
  pub out : List ℕ
  pub returns : modify f bits i ≡ some out
  pub same_length : length out ≡ length bits
  pub at_index : get_elem? out i ≡ Option.map f (get_elem? bits i)
  pub elsewhere : (j : ℕ) → i ≢ j → get_elem? out j ≡ get_elem? bits j
  pub are_bytes : ((x : ℕ) → IsByte x → IsByte (f x)) → AreBytes bits → AreBytes out

pub modify-Modified : (f : ℕ → ℕ) (bits : List ℕ) (i : ℕ) → i < length bits → Modified f bits i
unfolding modify
modify-Modified f [] i h = absurd (omega arith)
modify-Modified f (b ∷ bits) zero h = record {
  out = f b ∷ bits;
  returns = refl;
  same_length = refl;
  at_index = refl;
  elsewhere = λ j ne. first_untouched j ne;
  are_bytes = λ keep all. (keep b all.0, all.1);
}
  where
    first_untouched : (j : ℕ) → 0 ≢ j → get_elem? (f b ∷ bits) j ≡ get_elem? (b ∷ bits) j
    first_untouched zero ne = absurd (ne refl)
    first_untouched (suc j) ne = refl
modify-Modified f (b ∷ bits) (suc i) h = shift (modify-Modified f bits i (omega arith))
  where
    shift : Modified f bits i → Modified f (b ∷ bits) (suc i)
    shift rest = record {
      out = b ∷ rest.out;
      returns = ap (Option.map (λ r. b ∷ r)) rest.returns;
      same_length = ap suc rest.same_length;
      at_index = rest.at_index;
      elsewhere = λ j ne. later j ne;
      are_bytes = λ keep all. (all.0, rest.are_bytes keep all.1);
    }
      where
        later : (j : ℕ) → suc i ≢ j → get_elem? (b ∷ rest.out) j ≡ get_elem? (b ∷ bits) j
        later zero ne = refl
        later (suc j) ne = rest.elsewhere j (λ e. ne (ap suc e))

-- A read outside of the buffer is undefined, and so is a write.
pub modify_outside : (f : ℕ → ℕ) (bits : List ℕ) (i : ℕ) → length bits ≤ i → modify f bits i ≡ none
unfolding modify
modify_outside f [] i h = refl
modify_outside f (b ∷ bits) zero h = absurd (omega arith)
modify_outside f (b ∷ bits) (suc i) h =
    ap (Option.map (λ r. b ∷ r)) (modify_outside f bits i (omega arith))
