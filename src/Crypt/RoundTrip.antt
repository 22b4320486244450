-- ===== src/Crypt/RoundTrip.antt =====
-- crypt/hashAndEncryptEntity.ts and decryptEntities.ts: an entity that was hashed and encrypted is
-- restored by decryption.
use lrzwasnla.Common.{
  String, Bool, Option, none, some, ◌≡◌, refl, ap, ◌∙◌, inl, inr, ◌===◌, Text, [], ◌∷◌, Bool-cases,
  arith,
}
use lrzwasnla.Common.Exec.{ok, pure, ◌>>=◌}
use lrzwasnla.Annotations.Classes.{Class}
use lrzwasnla.Crypt.{
  Value, undefined, null, boolean, number, text, object_id, array, object, Entries, end, entry,
  Crypto, Memory, is_object_like,
}
use lrzwasnla.Crypt.Encryption.{
  class_of_property, encrypt_single, protect_single, array_of, with_class,
  hash_or_encrypt_entity_values, hash_or_encrypt_entries, hash_or_encrypt_property,
  hash_or_encrypt_elements, hash_and_encrypt_entity,
}
use lrzwasnla.Crypt.Decryption.{
  made, decrypt_entity_values, decrypt_entries, decrypt_property, decrypt_row_elements,
}
use lrzwasnla.Crypt.Chains.{IsSound, Yields, Gives, Yields->>=, Yields-pure, Gives-pure}
use lrzwasnla.Crypt.Keys.{IsWorking}
use lrzwasnla.Crypt.Properties.{
  known, open_single-Gives, encrypt_single-Gives, protect_single-plain,
}
use lrzwasnla.Crypt.Fitting.{texts-Yields, text-Yields}
use lrzwasnla.Crypt.Nested.{
  result_of, made-Gives, open_object, open_empty_array, open_object_id, open_rows,
}
use lrzwasnla.Crypt.Fits.{FitsEntity, FitsEntries, FitsProperty, FitsElements}

-- x
module _ {Any : Type 0} (k : Crypto Any) (b : Bool) (g : String → Bool) (secret : Text)
    (works : IsWorking k secret) where
  mutual
    unfolding hash_or_encrypt_entity_values decrypt_entity_values FitsEntity is_object_like
        with_class array_of made

    entity-Yields :
        (v : Value) (c : Option Class)
        → FitsEntity k b g v c
        → Yields g
            (hash_or_encrypt_entity_values k v c)
            (λ w. (is_object_like w ≡ is_object_like v) × Gives g (decrypt_entity_values k b w c) v)
    entity-Yields undefined c f = absurd (ground arith)
    entity-Yields null c f = absurd (ground arith)
    entity-Yields (boolean x) c f =
        Yields-pure g (boolean x) (refl, Gives-pure g (boolean x) (boolean x) refl)
    entity-Yields (number n) c f =
        Yields-pure g (number n) (refl, Gives-pure g (number n) (number n) refl)
    entity-Yields (text []) c f =
        Yields-pure g (text []) (refl, Gives-pure g (text []) (text []) refl)
    entity-Yields (text (x ∷ s)) none f = absurd (ground arith)
    entity-Yields (text (x ∷ s)) (some c) f =
        Yields-pure g (text (x ∷ s)) (refl, Gives-pure g (text (x ∷ s)) (text (x ∷ s)) refl)
    entity-Yields (object_id es) c f =
        Yields->>= g (hash_or_encrypt_entries k es c) (λ os. pure (object_id os))
          (entries-Yields es c f)
          (λ os p.
            Yields-pure g (object_id os)
              (refl, made-Gives k b g object_id (decrypt_entries k b os c) es p))
    entity-Yields (array es) c f =
        Yields->>= g (hash_or_encrypt_entries k es c) (λ os. pure (array os))
          (entries-Yields es c f)
          (λ os p.
            Yields-pure g (array os) (refl, made-Gives k b g array (decrypt_entries k b os c) es p))
    entity-Yields (object es) c f =
        Yields->>= g (hash_or_encrypt_entries k es c) (λ os. pure (object os))
          (entries-Yields es c f)
          (λ os p.
            Yields-pure g (object os)
              (refl, made-Gives k b g object (decrypt_entries k b os c) es p))

    entries-Yields :
        (es : Entries) (c : Option Class)
        → FitsEntries k b g es c
        → Yields g (hash_or_encrypt_entries k es c) (λ os. Gives g (decrypt_entries k b os c) es)
    entries-Yields end c f = Yields-pure g end (Gives-pure g end end refl)
    entries-Yields (entry name v rest) none f = absurd (ground arith)
    entries-Yields (entry name v rest) (some c) (one, more) =
        Yields->>= g (hash_or_encrypt_property k name v (some c))
          (λ w. hash_or_encrypt_entries k rest (some c) >>= λ os. pure (entry name w os))
          (property-Yields name v c one)
          (λ w p.
            Yields->>= g (hash_or_encrypt_entries k rest (some c)) (λ os. pure (entry name w os))
              (entries-Yields rest (some c) more)
              (λ os q. Yields-pure g (entry name w os) (
                Yields->>= g (decrypt_property k b name w (some c))
                  (λ x. decrypt_entries k b os (some c) >>= λ xs. pure (entry name x xs)) p
                  (λ x p1.
                    Yields->>= g (decrypt_entries k b os (some c)) (λ xs. pure (entry name x xs)) q
                      (λ xs q1.
                        Gives-pure g (entry name x xs) (entry name v rest) (rw (p1, q1) refl))))))

    property-Yields :
        (name : String) (v : Value) (c : Class)
        → FitsProperty k b g name v c
        → Yields g
            (hash_or_encrypt_property k name v (some c))
            (λ w. Gives g (decrypt_property k b name w (some c)) v)
    property-Yields name null c f = Yields-pure g null (Gives-pure g null null refl)
    property-Yields name undefined c (h, e, asked) =
        result_of k b g (protect_single k (some c) name undefined) undefined
          (protect_single-plain k b g secret works name c asked h e undefined)
          (Gives-pure g undefined undefined refl)
    property-Yields name (boolean x) c (h, e, asked) =
        result_of k b g (protect_single k (some c) name (boolean x)) (boolean x)
          (protect_single-plain k b g secret works name c asked h e (boolean x))
          (open_single-Gives k b g secret works name c asked e (boolean x))
    property-Yields name (number n) c (h, e, asked) =
        result_of k b g (protect_single k (some c) name (number n)) (number n)
          (protect_single-plain k b g secret works name c asked h e (number n))
          (open_single-Gives k b g secret works name c asked e (number n))
    property-Yields name (text s) c f = text-Yields k b g secret works name c s f
    property-Yields name (object_id end) c ((h, e, asked), lookup) =
        result_of k b g (encrypt_single k (some c) name (object_id end)) (object_id end)
          (encrypt_single-Gives k b g secret works name c asked e (object_id end))
          (elim (Bool-cases (name === "_id")) [
            | inl own ↦ rw own (open_single-Gives k b g secret works name c asked e (object_id end))
            | inr other ↦ elim lookup [
              | inl own ↦ absurd (ground (arith, own, other))
              | inr (d, found) ↦ open_object_id k b g c name d found other
            ]
          ])
    property-Yields name (object_id (entry i v rest)) c f = absurd (ground arith)
    property-Yields name (object es) c (ne, (d, found, f)) =
        known k g (class_of_property k (some c) name) d found
          (λ d. hash_or_encrypt_entries k es d >>= λ os. pure (object os))
          (Yields->>= g (hash_or_encrypt_entries k es d) (λ os. pure (object os))
            (entries-Yields es d f)
            (λ os p. Yields-pure g (object os) (open_object k b g c name d ne found os es p)))
    property-Yields name (array end) c (ne, (d, found)) =
        known k g (class_of_property k (some c) name) d found (λ d. pure (array end))
          (Yields-pure g (array end) (open_empty_array k b g c name d ne found))
    property-Yields name (array (entry i first rest)) c
          (inl (like, followed, (d, found, one, more))) =
        rw like (
          known k g (class_of_property k (some c) name) d found
            (λ d.
              array_of k i (hash_or_encrypt_entity_values k first d)
                (hash_or_encrypt_elements k rest d))
            (Yields->>= g (hash_or_encrypt_entity_values k first d)
              (λ v. hash_or_encrypt_elements k rest d >>= λ os. pure (array (entry i v os)))
              (entity-Yields first d one)
              (λ v p.
                Yields->>= g (hash_or_encrypt_elements k rest d) (λ os. pure (array (entry i v os)))
                  (elements-Yields rest d more)
                  (λ os q. Yields-pure g (array (entry i v os)) (
                    open_rows k b g c name d followed found i first v rest os (p.0 ∙ like) p.1
                      q)))))
    property-Yields name (array (entry i first rest)) c (inr (flat, f)) =
        rw flat (texts-Yields k b g secret works name c i first rest flat f)

    elements-Yields :
        (es : Entries) (c : Option Class)
        → FitsElements k b g es c
        → Yields g
            (hash_or_encrypt_elements k es c)
            (λ os. Gives g (decrypt_row_elements k b os c) es)
    elements-Yields end c f = Yields-pure g end (Gives-pure g end end refl)
    elements-Yields (entry i v rest) c (one, more) =
        Yields->>= g (hash_or_encrypt_entity_values k v c)
          (λ w. hash_or_encrypt_elements k rest c >>= λ os. pure (entry i w os))
          (entity-Yields v c one)
          (λ w p.
            Yields->>= g (hash_or_encrypt_elements k rest c) (λ os. pure (entry i w os))
              (elements-Yields rest c more)
              (λ os q. Yields-pure g (entry i w os) (
                Yields->>= g (decrypt_entity_values k b w c)
                  (λ x. decrypt_row_elements k b os c >>= λ xs. pure (entry i x xs)) p.1
                  (λ x p1.
                    Yields->>= g (decrypt_row_elements k b os c) (λ xs. pure (entry i x xs)) q
                      (λ xs q1. Gives-pure g (entry i x xs) (entry i v rest) (rw (p1, q1) refl))))))

-- Where the cipher works under the key, and the answers that are remembered are those of one
-- function of their keys, which the properties of the entity agree with, an entity that fits is
-- hashed and encrypted without an error, and decrypting the result later, with whatever is
-- remembered by then, gives the entity back; the answers that are remembered stay those of the
-- function. An entity fits if, at every depth, no property is both hashed and encrypted, hashed
-- ones hold hashes, encrypted ones ASCII texts, and other values stand under properties that are
-- neither; if arrays of objects stand only where decryption follows them, not under a many-to-many
-- property that it skips; if nested objects have metadata and `_id` holds no object or array.
pub decrypt_entity_values-hash_and_encrypt_entity :
    {Any : Type 0} (k : Crypto Any) (b : Bool) (g : String → Bool) (secret : Text)
    → IsWorking k secret
    → (entity : Value) (c : Class) → FitsEntity k b g entity (some c)
    → (m later : Memory) → IsSound g m
    → IsSound g later
    → (hidden : Value) × (n : Memory) × (last : Memory) × (hash_and_encrypt_entity k entity c m
        ≡ (ok hidden, n))
      × IsSound g n
      × (decrypt_entity_values k b hidden (some c) later ≡ (ok entity, last))
unfolding hash_and_encrypt_entity
decrypt_entity_values-hash_and_encrypt_entity k b g secret works entity c fits m later s t =
    let (hidden, n, e, kept, p) = entity-Yields k b g secret works entity (some c) fits m s in
    let (x, last, e1, kept1, p1) = p.1 later t in
    (hidden, n, last, e, kept, e1 ∙ ap (λ v. (ok v, last)) p1)
