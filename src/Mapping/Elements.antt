-- ===== src/Mapping/Elements.antt =====
-- src/mapping/impls.rs, `Vec<T>`: which element a fault is about.
use tessaridb_sdk_rust.Common.{
  ◌≡◌, refl, ap, ◌∙◌, arith, ℕ, suc, ◌+◌, List, [], ◌∷◌, ◌++◌, Result, ok, err, length,
  bind as and_then,
}
use tessaridb_sdk_rust.Cache.Containers.{list_of}
use tessaridb_sdk_rust.Mapping.{MappingFault, at_element, in_element, elements_from, sequence_from}
use tessaridb_sdk_rust.Value.{Value, Items}

module _ {A : Type 0} (read : Value → Result MappingFault A) where
  -- Values and what they convert to, one for one and in order.
  pub data Reads : List Value → List A → Type 0 where
    no_values : Reads [] []
    value_read :
        (v : Value) (a : A) (vs : List Value) (more : List A)
        → read v ≡ ok a
        → Reads vs more
        → Reads (v ∷ vs) (a ∷ more)

  -- The first value that does not convert, and the fault that names it.
  pub record FirstFault (start : ℕ) (vs : List Value) (fault : MappingFault) : Type 0 where
    pub before : List Value
    pub bad : Value
    pub behind : List Value
    pub values : List A
    pub cause : MappingFault
    pub together : vs ≡ before ++ bad ∷ behind
    pub converted : Reads before values
    pub failed : read bad ≡ err cause
    pub named : fault ≡ at_element (start + length before) cause

  unfoldable pub Says : ℕ → List Value → Result MappingFault (List A) → Type 0
  Says start vs (ok more) = Reads vs more
  Says start vs (err fault) = FirstFault start vs fault

  next-Says :
      (start : ℕ) (v : Value) (vs : List Value) (m : Result MappingFault A)
      (rest : Result MappingFault (List A))
      → read v ≡ m
      → Says (suc start) vs rest
      → Says start
          (v ∷ vs)
          (and_then (in_element start m) λ first. and_then rest λ later. ok (first ∷ later))
  unfolding Says in_element
  next-Says start v vs (err cause) rest e h = record {
    before = [];
    bad = v;
    behind = vs;
    values = [];
    cause = cause;
    together = refl;
    converted = no_values;
    failed = e;
    named = ap (λ n. at_element n cause) (omega arith);
  }
  next-Says start v vs (ok a) (ok more) e h = value_read v a vs more e h
  next-Says start v vs (ok a) (err fault) e h = record {
    before = v ∷ h.before;
    bad = h.bad;
    behind = h.behind;
    values = a ∷ h.values;
    cause = h.cause;
    together = ap (λ ws. v ∷ ws) h.together;
    converted = value_read v a h.before h.values e h.converted;
    failed = h.failed;
    named = h.named ∙ ap (λ n. at_element n h.cause) (omega arith);
  }

  elements_from-Says : (start : ℕ) (vs : List Value) → Says start vs (elements_from read start vs)
  unfolding elements_from Says
  elements_from-Says start [] = no_values
  elements_from-Says start (v ∷ vs) =
      next-Says start v vs (read v) (elements_from read (suc start) vs) refl
        (elements_from-Says (suc start) vs)

  -- An array and a set convert to what their elements convert to, one for one and in order; or the
  -- fault is that of the first element that does not convert, with its index.
  pub sequence_from-Says :
      (held : Items)
      → Says 0 (list_of held) (sequence_from read (Value.array held))
        × Says 0 (list_of held) (sequence_from read (Value.set held))
  unfolding sequence_from
  sequence_from-Says held =
      (elements_from-Says 0 (list_of held), elements_from-Says 0 (list_of held))
