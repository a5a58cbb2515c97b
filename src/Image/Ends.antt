-- ===== src/Image/Ends.antt =====
-- How deep `read_prototype` of src/vm/core.c goes.
use saurus.Base.{
  ℕ, zero, suc, ◌+◌, ◌-◌, ◌≤◌, ◌<◌, ap, Bool, true, false, List, [], ◌∷◌, length, Bool-cases, inl,
  inr, ◌==◌, if◌then◌else◌, arith,
}
use saurus.Image.{
  Representation, Parsed, done, failed, aborted, exhausted, Parser, pure, continue, ◌>>=◌,
  read_bytes, repeat, read_unsigned, read_instruction, read_upvalue, read_string, cnil, cfalse,
  ctrue, cstring, first_byte, constant_body, read_constant, read_prototype,
}
use saurus.Reader.{ReaderBuffer, buffer_read}
use saurus.Reader.Stream.{unread, Valid, length-drop, buffer_read-Delivers}

-- The parse did not run out of fuel, and if it gave a value, it has read at least `k` of `n` bytes.
abbrev pub Ends : {A : Type 0} → (k n : ℕ) → Parsed A → Type 0
Ends k n (done a b chunks) = Valid b × (length (unread b chunks) + k ≤ n)
Ends k n failed = Unit
Ends k n aborted = Unit
Ends k n exhausted = ⊥

Ends-weaken : {A : Type 0} (k n m : ℕ) (r : Parsed A) → n ≤ m + k → Ends k n r → Ends 0 m r
Ends-weaken k n m (done a b chunks) h e = (e.0, omega (arith, h, e.1))
Ends-weaken k n m failed h e = tt
Ends-weaken k n m aborted h e = tt
Ends-weaken k n m exhausted h e = e

continue-Ends :
    {A B : Type 0} (k n j m : ℕ) (r : Parsed A) (f : A → Parser B)
    → Ends k n r
    → ((a : A) (b : ReaderBuffer) (chunks : List (List ℕ))
        → Valid b
        → length (unread b chunks) + k ≤ n
        → Ends j m (f a b chunks))
    → Ends j m (continue r f)
continue-Ends k n j m (done a b chunks) f e h = h a b chunks e.0 e.1
continue-Ends k n j m failed f e h = tt
continue-Ends k n j m aborted f e h = tt
continue-Ends k n j m exhausted f e h = e

read_bytes-Ends :
    (k : ℕ) (b : ReaderBuffer) (chunks : List (List ℕ))
    → Valid b
    → Ends k (length (unread b chunks)) (read_bytes k b chunks)
unfolding read_bytes
read_bytes-Ends k b chunks v =
    let r = buffer_read b chunks [] k in
    let d = buffer_read-Delivers b chunks [] k v in
    elim (Bool-cases r.complete) [
      | inl e ↦ rw e (
        d.valid,
        ground (arith, d.complete, e, ap length (d.rest e), length-drop k (unread b chunks)),
      )
      | inr e ↦ rw e tt
    ]

unsigned-Ends :
    (n : ℕ) (b : ReaderBuffer) (chunks : List (List ℕ))
    → Valid b
    → length (unread b chunks) ≤ n
    → Ends 4 n (read_unsigned b chunks)
unfolding read_unsigned
unsigned-Ends n b chunks v le =
    continue-Ends 4 (length (unread b chunks)) 4 n _ _ (read_bytes-Ends 4 b chunks v)
      (λ bytes b' chunks' v' le'. (v', omega (arith, le, le')))

-- A parser that ends whatever stream of at most `n` bytes it is given.
pub record Total {A : Type 0} (n : ℕ) (p : Parser A) : Type 0 where
  pub ends :
      (b : ReaderBuffer) (chunks : List (List ℕ))
      → Valid b
      → length (unread b chunks) ≤ n
      → Ends 0 n (p b chunks)

module _ (n : ℕ) where
  bind-Total :
      {A B : Type 0} (p : Parser A) (f : A → Parser B)
      → Total n p
      → ((a : A) → Total n (f a))
      → Total n (p >>= f)
  bind-Total p f t h = record {
    ends = λ b chunks v le.
        continue-Ends 0 n 0 n (p b chunks) f (t.ends b chunks v le)
          (λ a b' chunks' v' le'. (h a).ends b' chunks' v' (omega (arith, le')));
  }

  pure-Total : {A : Type 0} (a : A) → Total n (pure a)
  pure-Total a = record { ends = λ b chunks v le. (v, omega (arith, le)) }

  bytes-Total : (k : ℕ) → Total n (read_bytes k)
  bytes-Total k = record {
    ends = λ b chunks v le.
        Ends-weaken k (length (unread b chunks)) n _ (omega (arith, le))
          (read_bytes-Ends k b chunks v);
  }

  then_pure-Total :
      {A B : Type 0} (p : Parser A) (f : A → B) → Total n p → Total n (p >>= λ a. pure (f a))
  then_pure-Total p f t = bind-Total p (λ a. pure (f a)) t (λ a. pure-Total (f a))

  repeat-Total : {A : Type 0} (count : ℕ) (p : Parser A) → Total n p → Total n (repeat count p)
  unfolding repeat
  repeat-Total {A} zero p t = pure-Total {A = List A} []
  repeat-Total (suc count) p t =
      bind-Total p _ t λ x. then_pure-Total (repeat count p) (λ xs. x ∷ xs) (repeat-Total count p t)

  unsigned-Total : Total n read_unsigned
  unfolding read_unsigned
  unsigned-Total = then_pure-Total (read_bytes 4) _ (bytes-Total 4)

  string-Total : Total n read_string
  unfolding read_string
  string-Total = bind-Total read_unsigned _ unsigned-Total bytes-Total

  instruction-Total : Total n read_instruction
  unfolding read_instruction
  instruction-Total = then_pure-Total (read_bytes 4) _ (bytes-Total 4)

  upvalue-Total : Total n read_upvalue
  unfolding read_upvalue
  upvalue-Total = then_pure-Total (read_bytes 4) _ (bytes-Total 4)

  if-Total :
      {A : Type 0} (t : Bool) (p q : Parser A)
      → Total n p
      → Total n q
      → Total n (if t then p else q)
  if-Total true p q hp hq = hp
  if-Total false p q hp hq = hq

  module _ {N : Type 0} (double : Representation N) where
    constant_body-Total : (id : ℕ) → Total n (constant_body double id)
    unfolding constant_body
    constant_body-Total id =
        if-Total (id == 4) _ _ (then_pure-Total read_string cstring string-Total) (
          if-Total (id == 3) _ _ (then_pure-Total (read_bytes 8) _ (bytes-Total 8)) (
            if-Total (id == 2) _ _ (pure-Total ctrue) (
              if-Total (id == 1) _ _ (pure-Total cfalse) (
                if-Total (id == 0) _ _ (pure-Total cnil) (record { ends = λ b chunks v le. tt })))))

    constant-Total : Total n (read_constant double)
    unfolding read_constant
    constant-Total =
        bind-Total (read_bytes 1) _ (bytes-Total 1) (λ id. constant_body-Total (first_byte id))

    counted :
        {A B : Type 0} (p : Parser A) (f : List A → Parser B)
        → Total n p
        → ((xs : List A) → Total n (f xs))
        → Total n (read_unsigned >>= λ count. repeat count p >>= f)
    counted p f t h =
        bind-Total read_unsigned _ unsigned-Total
          λ count. bind-Total (repeat count p) f (repeat-Total count p t) h

module _ {N : Type 0} (double : Representation N) where
  -- With more fuel than there are bytes in the stream, `read_prototype` ends.
  pub prototype-Total : (fuel n : ℕ) → n < fuel → Total n (read_prototype double fuel)
  unfolding read_prototype
  prototype-Total zero n h = absurd (omega (arith, h))
  prototype-Total (suc fuel) n h = record {
    ends = λ b chunks v le. Ends-weaken 0 (n - 4) n _ (omega arith) (
        continue-Ends 4 n 0 (n - 4) _ _ (unsigned-Ends n b chunks v le)
          (λ num_inst b' chunks' v' le'.
            (bind-Total (n - 4) _ _ (repeat-Total (n - 4) num_inst _ (instruction-Total (n - 4)))
                λ inst. counted (n - 4) double _ _ (constant-Total (n - 4) double) λ constants.
                  counted (n - 4) double _ _ (upvalue-Total (n - 4)) λ upvalues.
                    counted (n - 4) double _ _
                      (prototype-Total fuel (n - 4) (omega (arith, h, le')))
                      λ prot. bind-Total (n - 4) _ _ (string-Total (n - 4)) λ name.
                        counted (n - 4) double _ _ (unsigned-Total (n - 4))
                          λ lineinf. pure-Total (n - 4) _).ends
              b' chunks' v' (omega (arith, le'))));
  }
