-- ===== src/Interpreter/Exec/Keeps.antt =====
-- crates/interpreter/src/exec.rs: what the methods of a thread and of a store keep, and the rules to
-- build it up.
use wasefire.Base.{◌≡◌, sym, subst, inl, inr, Bool, true, false, if◌then◌else◌, arith}
use wasefire.Interpreter.Mode.{Outcome, ok}
use wasefire.Interpreter.Parser.Parses.{Outcome-cases}
use wasefire.Interpreter.Exec.State.{Thread, Store, Stateful, ◌>>=◌, ◌>>◌, pure, lift, asks}
use wasefire.Interpreter.Exec.Lookup.{Machine, in_store, in_thread}

pub record Preorder {S : Type 0} (R : S → S → Type 0) : Type 0 where
  pub same : (s : S) → R s s
  pub then_ : (s s' s'' : S) → R s s' → R s' s'' → R s s''

-- Where `p` returns, the state after it is related to the one before.
pub record Keeps {S A : Type 0} (R : S → S → Type 0) (p : Stateful S A) : Type 0 where
  pub keeps : (s : S) (a : A) (s' : S) → p s ≡ ok (a, s') → R s s'

module _ {S A B : Type 0} (p : Stateful S A) (f : A → Stateful S B) where
  pub bind-inv :
      (s : S) (b : B) (s' : S)
      → (p >>= f) s ≡ ok (b, s')
      → (a : A) × (mid : S) × (p s ≡ ok (a, mid)) × (f a mid ≡ ok (b, s'))
  unfolding ◌>>=◌
  bind-inv s b s' e = elim (Outcome-cases (p s)) [
    | inl ((a, mid), done) ↦ (a, mid, done, ground arith)
    | inr (inl (x, failed)) ↦ absurd (ground arith)
    | inr (inr (inl failed)) ↦ absurd (ground arith)
    | inr (inr (inr failed)) ↦ absurd (ground arith)
  ]

module _ {S : Type 0} {R : S → S → Type 0} where
  -- What leaves the state as it is.
  pub Keeps-same :
      {A : Type 0} (p : Stateful S A)
      → Preorder R
      → ((s : S) (a : A) (s' : S) → p s ≡ ok (a, s') → s ≡ s')
      → Keeps R p
  Keeps-same p order h = record { keeps = λ s a s' e. subst (R s) (h s a s' e) (order.same s) }

  pub Keeps-pure : {A : Type 0} (a : A) → Preorder R → Keeps R (pure a)
  unfolding pure
  Keeps-pure a order = Keeps-same _ order λ s b s' e. ground arith

  pub Keeps-lift : {A : Type 0} (r : Outcome A) → Preorder R → Keeps R (lift r)
  unfolding lift
  Keeps-lift r order = Keeps-same _ order λ s b s' e. ground arith

  pub Keeps-asks : {A : Type 0} (f : S → Outcome A) → Preorder R → Keeps R (asks f)
  unfolding asks lift
  Keeps-asks f order = Keeps-same _ order λ s b s' e. ground arith

  pub Keeps-bind :
      {A B : Type 0} (p : Stateful S A) (f : A → Stateful S B)
      → Preorder R
      → Keeps R p
      → ((a : A) → Keeps R (f a))
      → Keeps R (p >>= f)
  Keeps-bind p f order h k = record {
    keeps = λ s b s' e.
        let (a, mid, first, second) = bind-inv p f s b s' e in
        order.then_ s mid s' (h.keeps s a mid first) ((k a).keeps mid b s' second);
  }

  pub Keeps-then :
      {A B : Type 0} (p : Stateful S A) (q : Stateful S B)
      → Preorder R
      → Keeps R p
      → Keeps R q
      → Keeps R (p >> q)
  unfolding ◌>>◌
  Keeps-then p q order h k = Keeps-bind p _ order h λ a. k

  pub Keeps-if :
      {A : Type 0} (b : Bool) (p q : Stateful S A)
      → Keeps R p
      → Keeps R q
      → Keeps R (if b then p else q)
  Keeps-if true p q h k = h
  Keeps-if false p q h k = k

pub ruleset keep_rules = (Keeps-pure, Keeps-lift, Keeps-asks, Keeps-bind, Keeps-then, Keeps-if)

-- Relations of machines that look at the store, and at the thread.
pub record InStore (R : Store → Store → Type 0) (m m' : Machine) : Type 0 where
  pub store : R m.store m'.store

pub record InThread (R : Thread → Thread → Type 0) (m m' : Machine) : Type 0 where
  pub thread : R m.thread m'.thread

pub InStore-Preorder : {R : Store → Store → Type 0} → Preorder R → Preorder (InStore R)
InStore-Preorder order = record {
  same = λ m. record { store = order.same m.store };
  then_ = λ m m' m'' h k. record { store = order.then_ m.store m'.store m''.store h.store k.store };
}

InThread-Preorder : {R : Thread → Thread → Type 0} → Preorder R → Preorder (InThread R)
InThread-Preorder order = record {
  same = λ m. record { thread = order.same m.thread };
  then_ = λ m m' m'' h k. record {
    thread = order.then_ m.thread m'.thread m''.thread h.thread k.thread;
  };
}

-- What either part of a machine does.
module _ {A : Type 0} where
  in_store-inv :
      (p : Stateful Store A) (m : Machine) (a : A) (m' : Machine)
      → in_store p m ≡ ok (a, m')
      → (p m.store ≡ ok (a, m'.store)) × (m'.thread ≡ m.thread)
  unfolding in_store
  in_store-inv p m a m' e = elim (Outcome-cases (p m.store)) [
    | inl ((b, s), done) ↦ ground arith
    | inr (inl (x, failed)) ↦ absurd (ground arith)
    | inr (inr (inl failed)) ↦ absurd (ground arith)
    | inr (inr (inr failed)) ↦ absurd (ground arith)
  ]

  in_thread-inv :
      (p : Stateful Thread A) (m : Machine) (a : A) (m' : Machine)
      → in_thread p m ≡ ok (a, m')
      → (p m.thread ≡ ok (a, m'.thread)) × (m'.store ≡ m.store)
  unfolding in_thread
  in_thread-inv p m a m' e = elim (Outcome-cases (p m.thread)) [
    | inl ((b, s), done) ↦ ground arith
    | inr (inl (x, failed)) ↦ absurd (ground arith)
    | inr (inr (inl failed)) ↦ absurd (ground arith)
    | inr (inr (inr failed)) ↦ absurd (ground arith)
  ]

  pub Keeps-in_store :
      {R : Store → Store → Type 0} (p : Stateful Store A)
      → Keeps R p
      → Keeps (InStore R) (in_store p)
  Keeps-in_store p h = record {
    keeps = λ m a m' e. record { store = h.keeps m.store a m'.store (in_store-inv p m a m' e).0 };
  }

  Keeps-in_thread :
      {R : Thread → Thread → Type 0} (p : Stateful Thread A)
      → Keeps R p
      → Keeps (InThread R) (in_thread p)
  Keeps-in_thread p h = record {
    keeps =
        λ m a m' e. record { thread = h.keeps m.thread a m'.thread (in_thread-inv p m a m' e).0 };
  }

  -- The other part stays.
  Keeps-in_store_thread :
      {R : Thread → Thread → Type 0} (p : Stateful Store A)
      → Preorder R
      → Keeps (InThread R) (in_store p)
  Keeps-in_store_thread {R} p order = record {
    keeps = λ m a m' e. record {
      thread = subst (R m.thread) (sym (in_store-inv p m a m' e).1) (order.same m.thread);
    };
  }

  pub Keeps-in_thread_store :
      {R : Store → Store → Type 0} (p : Stateful Thread A)
      → Preorder R
      → Keeps (InStore R) (in_thread p)
  Keeps-in_thread_store {R} p order = record {
    keeps = λ m a m' e. record {
      store = subst (R m.store) (sym (in_thread-inv p m a m' e).1) (order.same m.store);
    };
  }
