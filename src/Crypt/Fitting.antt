-- ===== src/Crypt/Fitting.antt =====
-- crypt/hashAndEncryptEntity.ts and decryptEntities.ts: what becomes of a text and of an array of texts.
use lrzwasnla.Common.{String, Bool, false, some, ◌≡◌, inl, inr, Text}
use lrzwasnla.Annotations.Classes.{Class}
use lrzwasnla.Crypt.{Value, text, array, Entries, entry, Crypto, is_object_like}
use lrzwasnla.Crypt.Encryption.{protect_single, protect_array}
use lrzwasnla.Crypt.Decryption.{decrypt_property}
use lrzwasnla.Crypt.Chains.{Yields, Gives}
use lrzwasnla.Crypt.Keys.{IsWorking, is_ascii}
use lrzwasnla.Crypt.Properties.{
  open_single-Gives, open_elements-Gives, protect_single-plain, protect_single-hashed,
  protect_single-encrypted,
}
use lrzwasnla.Crypt.Texts.{protect_array-encrypted, protect_array-hashed, protect_array-plain}
use lrzwasnla.Crypt.Nested.{all_texts_are_headed, result_of}
use lrzwasnla.Crypt.Fits.{FitsText, FitsTexts}

-- x
module _ {Any : Type 0} (k : Crypto Any) (b : Bool) (g : String → Bool) (secret : Text)
    (works : IsWorking k secret) where
  -- an array that does not start with an object
  pub texts-Yields :
      (name : String) (c : Class) (i : String) (first : Value) (rest : Entries)
      → is_object_like first ≡ false
      → FitsTexts k b g name c (entry i first rest)
      → Yields g
          (protect_array k (some c) name (entry i first rest))
          (λ w. Gives g (decrypt_property k b name w (some c)) (array (entry i first rest)))
  unfolding decrypt_property
  texts-Yields name c i first rest flat (inl (h, e, asked)) =
      result_of k b g (protect_array k (some c) name (entry i first rest))
        (array (entry i first rest))
        (protect_array-plain k b g secret works name c asked (entry i first rest) h e)
        (rw flat (open_elements-Gives k b g secret works name c asked e first (entry i first rest)))
  texts-Yields name c i first rest flat (inr (inl ((h, e, asked), hashed))) =
      result_of k b g (protect_array k (some c) name (entry i first rest))
        (array (entry i first rest))
        (protect_array-hashed k b g secret works name c asked (entry i first rest) h hashed)
        (rw flat (open_elements-Gives k b g secret works name c asked e first (entry i first rest)))
  texts-Yields name c i first rest flat (inr (inr ((h, e, asked), ascii))) =
      protect_array-encrypted k b g secret works name c asked (entry i first rest) h e
        (all_texts_are_headed is_ascii i first rest ascii) ascii

  pub text-Yields :
      (name : String) (c : Class) (s : Text)
      → FitsText k b g name c s
      → Yields g
          (protect_single k (some c) name (text s))
          (λ w. Gives g (decrypt_property k b name w (some c)) (text s))
  unfolding decrypt_property
  text-Yields name c s (inl (h, e, asked)) =
      result_of k b g (protect_single k (some c) name (text s)) (text s)
        (protect_single-plain k b g secret works name c asked h e (text s))
        (open_single-Gives k b g secret works name c asked e (text s))
  text-Yields name c s (inr (inl ((h, e, asked), hashed))) =
      result_of k b g (protect_single k (some c) name (text s)) (text s)
        (protect_single-hashed k b g secret works name c asked h s hashed)
        (open_single-Gives k b g secret works name c asked e (text s))
  text-Yields name c s (inr (inr ((h, e, asked), ascii))) =
      protect_single-encrypted k b g secret works name c asked h e s ascii
