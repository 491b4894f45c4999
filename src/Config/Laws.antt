-- ===== src/Config/Laws.antt =====
-- What config.c relies on in its hash tables and in libconfig.
use event_sequence_transform.Prelude.{ℕ, ◌≡◌, ◌<◌, Option, some}
use event_sequence_transform.Prelude.Int.{ℤ}
use event_sequence_transform.HashTable.{HashTableKey, hash_table_key_from_bytes}
use event_sequence_transform.Config.{Text, Libconfig, Registry}

-- What a table of integers promises: a property of all keys with their integers that were put
-- into it holds for what is found.
pub record RegistryLaws {T : Type 0} (reg : Registry T) : Type 1 where
  pub Holds : (HashTableKey → ℤ → Type 0) → T → Type 0
  pub holds_init : (P : HashTableKey → ℤ → Type 0) → Holds P reg.init
  pub holds_insert :
      (P : HashTableKey → ℤ → Type 0) (t : T) (name : Option Text) (v : ℤ)
      → P (hash_table_key_from_bytes name) v
      → Holds P t
      → Holds P (reg.insert t (hash_table_key_from_bytes name) v)
  pub holds_find :
      (P : HashTableKey → ℤ → Type 0) (t : T) (name : Option Text) (v : ℤ)
      → Holds P t
      → reg.find t (hash_table_key_from_bytes name) ≡ some v
      → P (hash_table_key_from_bytes name) v
  pub holds_weaken :
      (P Q : HashTableKey → ℤ → Type 0) (t : T)
      → ((key : HashTableKey) (v : ℤ) → P key v → Q key v)
      → Holds P t
      → Holds Q t

-- The settings are a tree: what a setting holds is less deep.
pub record TreeLaws {S : Type 0} (lib : Libconfig S) : Type 0 where
  pub depth : S → ℕ
  pub depth_member :
      (s d : S) (name : Text) → lib.config_setting_get_member s name ≡ some d → depth d < depth s
  pub depth_elem : (s d : S) (i : ℕ) → lib.config_setting_get_elem s i ≡ some d → depth d < depth s
