-- ===== src/Crypt/Nested.antt =====
-- crypt/decryptEntities.ts: what becomes of a property that holds an object or an array of objects.
use lrzwasnla.Common.{
  String, Bool, true, false, Option, some, ◌≡◌, refl, ap, inl, inr, ◌===◌, Text, at, Option-cases,
  arith,
}
use lrzwasnla.Common.Exec.{ok, Exec, pure, ◌>>=◌}
use lrzwasnla.Errors.{Failure}
use lrzwasnla.Annotations.Classes.{Class}
use lrzwasnla.Crypt.{
  Value, null, text, object_id, array, object, Entries, end, entry, Crypto, Memory, is_object_like,
}
use lrzwasnla.Crypt.Encryption.{type_name_of, class_of_property, array_of, with_class}
use lrzwasnla.Crypt.Decryption.{
  is_followed, nested_class, made, when_nested, decrypt_entity_values, decrypt_entries,
  decrypt_property, decrypt_row_elements,
}
use lrzwasnla.Crypt.Chains.{Yields, Gives, Yields->>=, Gives-pure}
use lrzwasnla.Crypt.Properties.{known}
use lrzwasnla.Crypt.Texts.{is_headed}
use lrzwasnla.Crypt.Fits.{is_all_texts}

-- x
pub all_texts_are_headed :
    (test : Text → Bool) (i : String) (first : Value) (rest : Entries)
    → is_all_texts false test (entry i first rest) ≡ true
    → is_headed (entry i first rest) ≡ true
all_texts_are_headed test i (text s) rest h = refl
all_texts_are_headed test i null rest h = absurd (ground arith)
all_texts_are_headed test i _ rest h = absurd (ground arith)

module _ {Any : Type 0} (k : Crypto Any) (b : Bool) (g : String → Bool) where
  pub result_of :
      {A : Type 0} {Q : A → Type 0} (m : Exec Failure Memory A) (a : A)
      → Gives g m a
      → Q a
      → Yields g m Q
  result_of m a h q s sound = let (x, t, e, sound1, p) = h s sound in (x, t, e, sound1, rw p q)

  -- A property whose class is found when it is encrypted has that class when it is decrypted.
  class_of_property-nested_class :
      (c : Class) (name : String) (d : Option Class) (followed : Bool)
      → followed ≡ true
      → class_of_property k (some c) name ≡ ok d
      → nested_class k b followed (some c) name ≡ ok (some d)
  unfolding class_of_property nested_class type_name_of
  class_of_property-nested_class c name d followed f h =
      elim (Option-cases (at (k.metadata c) name)) [
        | inl e ↦ absurd (ground arith)
        | inr (type_name, e) ↦ ground (arith, e)
      ]

  pub made-Gives :
      (make : Entries → Value) (m : Exec Failure Memory Entries) (es : Entries)
      → Gives g m es
      → Gives g (made k b make m) (make es)
  unfolding made
  made-Gives make m es h =
      Yields->>= g m (λ os. pure (make os)) h (λ os p. Gives-pure g (make os) (make es) (ap make p))

  module _ (c : Class) (name : String) (d : Option Class) where
    pub open_object :
        (name === "_id") ≡ false
        → class_of_property k (some c) name ≡ ok d
        → (os es : Entries) → Gives g (decrypt_entries k b os d) es
        → Gives g (decrypt_property k b name (object os) (some c)) (object es)
    unfolding decrypt_property with_class when_nested
    open_object ne e os es h = rw ne (
        known k g (nested_class k b true (some c) name) (some d)
          (class_of_property-nested_class c name d true refl e)
          (when_nested k b (object os) (λ d. made k b object (decrypt_entries k b os d)))
          (made-Gives object (decrypt_entries k b os d) es h))

    pub open_empty_array :
        (name === "_id") ≡ false
        → class_of_property k (some c) name ≡ ok d
        → Gives g (decrypt_property k b name (array end) (some c)) (array end)
    unfolding decrypt_property with_class when_nested
    open_empty_array ne e = rw ne (
        known k g (nested_class k b true (some c) name) (some d)
          (class_of_property-nested_class c name d true refl e)
          (when_nested k b (array end) (λ d. pure (array end)))
          (Gives-pure g (array end) (array end) refl))

    pub open_object_id :
        class_of_property k (some c) name ≡ ok d
        → (name === "_id") ≡ false
        → Gives g (decrypt_property k b name (object_id end) (some c)) (object_id end)
    unfolding decrypt_property with_class when_nested decrypt_entries
    open_object_id e ne = rw ne (
        known k g (nested_class k b true (some c) name) (some d)
          (class_of_property-nested_class c name d true refl e)
          (when_nested k b (object_id end) (λ d. made k b object_id (decrypt_entries k b end d)))
          (made-Gives object_id (pure end) end (Gives-pure g end end refl)))

    pub open_rows :
        is_followed k b (some c) name ≡ true
        → class_of_property k (some c) name ≡ ok d
        → (i : String) (first v : Value) (rest others : Entries) → is_object_like v ≡ true
        → Gives g (decrypt_entity_values k b v d) first
        → Gives g (decrypt_row_elements k b others d) rest
        → Gives g
            (decrypt_property k b name (array (entry i v others)) (some c))
            (array (entry i first rest))
    unfolding decrypt_property with_class when_nested array_of
    open_rows followed e i first v rest others like one more = rw like (
        known k g (nested_class k b (is_followed k b (some c) name) (some c) name) (some d)
          (class_of_property-nested_class c name d (is_followed k b (some c) name) followed e)
          (when_nested k b (array (entry i v others))
            (λ d. array_of k i (decrypt_entity_values k b v d) (decrypt_row_elements k b others d)))
          (Yields->>= g (decrypt_entity_values k b v d)
            (λ x. decrypt_row_elements k b others d >>= λ xs. pure (array (entry i x xs))) one
            (λ x p.
              Yields->>= g (decrypt_row_elements k b others d) (λ xs. pure (array (entry i x xs)))
                more
                (λ xs q.
                  Gives-pure g (array (entry i x xs)) (array (entry i first rest))
                    (rw (p, q) refl)))))
