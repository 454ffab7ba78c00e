-- ===== src/Axi4/Stream/Packet/Compare.antt =====
-- Two packets compare equal exactly when they carry the same identifiers, user values and bytes.
use logic.Base.{
  ℕ, ◌≡◌, refl, ap, ap₂, Bool, true, false, Option, some, List, [], ◌∷◌, map, ◌↔◌, arith, All, ◌==◌,
  ==_iff, if◌then◌else◌, ◌&&◌,
}
use logic.Storage.Number.{number}
use logic.Bitstream.Defs.{Bitstream}
use logic.Bitstream.Defs
use logic.Bitstream.Valid.{IsValid}
use logic.Bitstream.Equal.{is_equal_lem}
use logic.Axi4.Stream.TdataByte.{TdataByte, byte_equality}
use logic.Axi4.Stream.Packet.{Packet, streams_equal, bytes_equal, do_compare, ◌and_then◌}

pub record IsWellFormed (p : Packet) : Type 0 where
  pub tid_valid : IsValid p.tid
  pub tdest_valid : IsValid p.tdest
  pub tuser_valid : All IsValid p.tuser

-- What a scoreboard looks at.
pub record Content : Type 0 where
  pub tid : ℕ
  pub tdest : ℕ
  pub tuser : List ℕ
  pub tdata : List TdataByte

abbrev pub value_of : Bitstream → ℕ
value_of s = number s.m_bits

abbrev pub content : Packet → Content
content p = record {
  tid = value_of p.tid;
  tdest = value_of p.tdest;
  tuser = map value_of p.tuser;
  tdata = p.tdata;
}

-- A test that is defined, and decides an equation.
pub record Decides {A : Type 0} (result : Option Bool) (x y : A) : Type 0 where
  pub answer : Bool
  pub defined : result ≡ some answer
  pub decides : (answer ≡ true) ↔ (x ≡ y)

pub stream_Decides :
    (s t : Bitstream)
    → IsValid s
    → IsValid t
    → Decides (Defs.is_equal s t) (value_of s) (value_of t)
stream_Decides s t v w = record {
  answer = value_of s == value_of t;
  defined = is_equal_lem s t v w;
  decides = ==_iff (value_of s) (value_of t);
}

-- A conjunction of tests decides a conjunction of equations.
pub both :
    {A B C : Type 0} (a b : Option Bool) {x y : A} {u v : B} {p q : C}
    → Decides a x y
    → Decides b u v
    → ((x ≡ y) × (u ≡ v)) ↔ (p ≡ q)
    → Decides (a and_then b) p q
both a b da db iff = record {
  answer = da.answer && db.answer;
  defined = rw (da.defined, db.defined) (joined da.answer db.answer);
  decides = (
    λ e.
        iff.0
          (da.decides.0 (left da.answer db.answer e), db.decides.0 (right da.answer db.answer e)),
    λ e. meet da.answer db.answer (da.decides.1 (iff.1 e).0) (db.decides.1 (iff.1 e).1),
  );
}
  where
    joined : (m n : Bool) → (if m then some n else some false) ≡ some (m && n)
    joined true n = refl
    joined false n = refl

    left : (m n : Bool) → (m && n) ≡ true → m ≡ true
    left m n e = ground arith

    right : (m n : Bool) → (m && n) ≡ true → n ≡ true
    right m n e = ground arith

    meet : (m n : Bool) → m ≡ true → n ≡ true → (m && n) ≡ true
    meet m n d e = ground arith

cons_iff {ℓ} :
    {A : Type ℓ} (x y : A) (xs ys : List A) → ((x ≡ y) × (xs ≡ ys)) ↔ ((x ∷ xs) ≡ (y ∷ ys))
cons_iff x y xs ys = (λ e. ap₂ ◌∷◌ e.0 e.1, λ e. (cc, cc))

pub streams_Decides :
    (xs ys : List Bitstream)
    → All IsValid xs
    → All IsValid ys
    → Decides (streams_equal xs ys) (map value_of xs) (map value_of ys)
unfolding streams_equal
streams_Decides [] [] h k = record {
  answer = true;
  defined = refl;
  decides = (λ e. refl, λ e. refl);
}
streams_Decides [] (y ∷ ys) h k = record {
  answer = false;
  defined = refl;
  decides = (λ e. cc, λ e. cc);
}
streams_Decides (x ∷ xs) [] h k = record {
  answer = false;
  defined = refl;
  decides = (λ e. cc, λ e. cc);
}
streams_Decides (x ∷ xs) (y ∷ ys) h k =
    both (Defs.is_equal x y) (streams_equal xs ys) (stream_Decides x y h.0 k.0)
      (streams_Decides xs ys h.1 k.1)
      (cons_iff (value_of x) (value_of y) (map value_of xs) (map value_of ys))

pub bytes_equal_iff : (xs ys : List TdataByte) → (bytes_equal xs ys ≡ true) ↔ (xs ≡ ys)
unfolding bytes_equal
bytes_equal_iff [] [] = (λ e. refl, λ e. refl)
bytes_equal_iff [] (y ∷ ys) = (λ e. cc, λ e. cc)
bytes_equal_iff (x ∷ xs) [] = (λ e. cc, λ e. cc)
bytes_equal_iff (x ∷ xs) (y ∷ ys) = (
  λ e. ground (arith, (byte_equality x y).0, bytes_equal_iff xs ys),
  λ e. rw ((byte_equality x y).0.1 (cc)) ((bytes_equal_iff xs ys).1 (cc)),
)

pub pair_iff :
    {A B : Type 0} (x y : A) (u v : B) → ((x ≡ y) × (u ≡ v)) ↔ (◌≡◌ {A = A × B} (x, u) (y, v))
pair_iff x y u v = (λ e. ground (arith, e.0, e.1), λ e. (ap (λ t. t.0) e, ap (λ t. t.1) e))

content_iff :
    (p q : Packet)
    → ((value_of p.tid ≡ value_of q.tid)
        × (◌≡◌ {A = ℕ × (List ℕ × List TdataByte)}
            (value_of p.tdest, (map value_of p.tuser, p.tdata))
            (value_of q.tdest, (map value_of q.tuser, q.tdata))))
      ↔ (content p ≡ content q)
content_iff p q = (
  λ e. ground (arith, e.0, ap (λ t. t.0) e.1, ap (λ t. t.1.0) e.1, ap (λ t. t.1.1) e.1),
  λ e. (
    ap (λ (c : Content). c.tid) e,
    ap (λ (c : Content). let r : ℕ × (List ℕ × List TdataByte) = (c.tdest, (c.tuser, c.tdata)) in r)
        e,
  ),
)

-- The comparison of two packets whose streams are valid is defined, and it is true exactly when the
-- packets have the same content: the numbers of their identifiers and `tuser` words, and their
-- bytes with the types.
pub do_compare-Decides :
    (p q : Packet)
    → IsWellFormed p
    → IsWellFormed q
    → Decides (do_compare p (some q)) (content p) (content q)
unfolding do_compare
do_compare-Decides p q v w =
    both (Defs.is_equal p.tid q.tid)
      (Defs.is_equal p.tdest q.tdest
        and_then streams_equal p.tuser q.tuser
        and_then some (bytes_equal p.tdata q.tdata))
      (stream_Decides p.tid q.tid v.tid_valid w.tid_valid)
      (both (Defs.is_equal p.tdest q.tdest)
        (streams_equal p.tuser q.tuser and_then some (bytes_equal p.tdata q.tdata))
        (stream_Decides p.tdest q.tdest v.tdest_valid w.tdest_valid)
        (both (streams_equal p.tuser q.tuser) (some (bytes_equal p.tdata q.tdata))
          (streams_Decides p.tuser q.tuser v.tuser_valid w.tuser_valid)
          (record {
            answer = bytes_equal p.tdata q.tdata;
            defined = refl;
            decides = bytes_equal_iff p.tdata q.tdata;
          })
          (pair_iff (map value_of p.tuser) (map value_of q.tuser) p.tdata q.tdata))
        (pair_iff (value_of p.tdest) (value_of q.tdest) (map value_of p.tuser, p.tdata)
          (map value_of q.tuser, q.tdata)))
      (content_iff p q)
