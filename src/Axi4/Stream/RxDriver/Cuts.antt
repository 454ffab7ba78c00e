-- ===== src/Axi4/Stream/RxDriver/Cuts.antt =====
-- The edges at which a driver runs, cut after a number of ready ones.
use logic.Base.{
  Bool-cases, ℕ, zero, suc, ◌+◌, ◌≤◌, ◌≡◌, refl, ap, Bool, List, [], ◌∷◌, ◌++◌, arith, length, map,
  drop, if-cases, inl, inr,
}
use logic.Axi4.Stream.RxDriver.{Edge}
use logic.Axi4.Stream.RxDriver.Progress.{ready_edges}
use logic.Axi4.Stream.RxDriver.Idle.{count_ready}

-- The edges up to that many ready ones, and those after them.
pub record Cut (edges : List Edge) (k : ℕ) : Type 0 where
  pub first : List Edge
  pub rest : List Edge
  pub whole : edges ≡ first ++ rest
  pub first_ready : ready_edges first ≡ k
  pub rest_ready : ready_edges edges ≡ k + ready_edges rest

pub cut : (edges : List Edge) (k : ℕ) → k ≤ ready_edges edges → Cut edges k
cut edges zero h = record {
  first = [];
  rest = edges;
  whole = refl;
  first_ready = refl;
  rest_ready = omega arith;
}
cut [] (suc k) h = absurd (omega arith)
cut (edge ∷ edges) (suc k) h = elim (Bool-cases edge.tready) [
  | inl e ↦
      let c = cut edges k (enough (rw e at h)) in
      record {
        first = edge ∷ c.first;
        rest = c.rest;
        whole = ap (λ l. edge ∷ l) c.whole;
        first_ready = rw e (ap suc c.first_ready);
        rest_ready = rw e (omega (arith, c.rest_ready));
      }
  | inr e ↦
      let c = cut edges (suc k) (rw e at h) in
      record {
        first = edge ∷ c.first;
        rest = c.rest;
        whole = ap (λ l. edge ∷ l) c.whole;
        first_ready = rw e c.first_ready;
        rest_ready = rw e c.rest_ready;
      }
]
  where
    enough : {a b : ℕ} → suc a ≤ suc b → a ≤ b
    enough h = omega (arith, h)

ready_edges-tail :
    (edge : Edge) (edges : List Edge) → ready_edges edges ≤ ready_edges (edge ∷ edges)
ready_edges-tail edge edges =
    if-cases (λ n. ready_edges edges ≤ n) edge.tready (suc (ready_edges edges)) (ready_edges edges)
      (λ e. omega arith) (λ e. omega arith)

-- Dropping a part of the first edges leaves the rest.
pub ready_edges-drop :
    (n : ℕ) (first rest : List Edge)
    → n ≤ length first
    → ready_edges rest ≤ ready_edges (drop n (first ++ rest))
ready_edges-drop zero [] rest h = omega arith
ready_edges-drop zero (edge ∷ first) rest h =
    let more = ready_edges-drop zero first rest (omega arith) in
    let tail = ready_edges-tail edge (first ++ rest) in omega (arith, more, tail)
ready_edges-drop (suc n) [] rest h = absurd (omega (arith, h))
ready_edges-drop (suc n) (edge ∷ first) rest h = ready_edges-drop n first rest (omega (arith, h))

pub count_ready-map :
    (edges : List Edge) → count_ready (map (λ edge. edge.tready) edges) ≡ ready_edges edges
count_ready-map [] = refl
count_ready-map (edge ∷ edges) = elim (Bool-cases edge.tready) [
  | inl e ↦ rw e (ap suc (count_ready-map edges))
  | inr e ↦ rw e (count_ready-map edges)
]

abbrev pub readies : List Edge → List Bool
readies edges = map (λ edge. edge.tready) edges

pub readies-append :
    (first rest : List Edge) → readies (first ++ rest) ≡ readies first ++ readies rest
readies-append [] rest = refl
readies-append (edge ∷ first) rest = ap (λ l. edge.tready ∷ l) (readies-append first rest)

pub length-readies : (edges : List Edge) → length (readies edges) ≡ length edges
length-readies [] = refl
length-readies (edge ∷ edges) = ap suc (length-readies edges)
