-- ===== src/Config/Store.antt =====
-- lib/config/blob_store.h and memory_blob_store.h: the one stored blob, and the store in memory.
use homekit_rf_ir_blaster.Base.{
  ℕ, ◌≡◌, refl, Bool, true, false, [], Option, none, some, ltb, if◌then◌else◌, length, Bytes, arith,
  Bool-cases, inl, inr,
}

-- IBlobStore, with what its comments promise: a write that is refused leaves the blob as it was,
-- and one that is accepted is what is read next.
pub record BlobStore (S : Type 0) : Type 0 where
  pub get : S → Option Bytes
  pub put : S → Bytes → Bool × S
  pub erase : S → S
  pub put_refused : (s : S) (b : Bytes) → (put s b).0 ≡ false → get (put s b).1 ≡ get s
  pub put_stored : (s : S) (b : Bytes) → (put s b).0 ≡ true → get (put s b).1 ≡ some b
  pub erase_absent : (s : S) → get (erase s) ≡ none

pub record MemoryBlobStore : Type 0 where
  pub capacity : ℕ
  pub present : Bool
  pub blob : Bytes

unfoldable pub memory_get : MemoryBlobStore → Option Bytes
memory_get s = if s.present then some s.blob else none

unfoldable pub memory_put : MemoryBlobStore → Bytes → Bool × MemoryBlobStore
memory_put s bytes =
    if ltb s.capacity (length bytes)
    then (false, s)
    else (true, record s { blob = bytes; present = true })

unfoldable pub memory_erase : MemoryBlobStore → MemoryBlobStore
memory_erase s = record s { blob = []; present = false }

pub memory_put_refused :
    (s : MemoryBlobStore) (b : Bytes)
    → (memory_put s b).0 ≡ false
    → memory_get (memory_put s b).1 ≡ memory_get s
unfolding memory_put memory_get
memory_put_refused s b h = elim (Bool-cases (ltb s.capacity (length b))) [
  | inl e ↦ rw e
  | inr e ↦ absurd (ground arith)
]

pub memory_put_stored :
    (s : MemoryBlobStore) (b : Bytes)
    → (memory_put s b).0 ≡ true
    → memory_get (memory_put s b).1 ≡ some b
unfolding memory_put memory_get
memory_put_stored s b h = elim (Bool-cases (ltb s.capacity (length b))) [
  | inl e ↦ absurd (ground arith)
  | inr e ↦ rw e
]

pub memory_erase_absent : (s : MemoryBlobStore) → memory_get (memory_erase s) ≡ none
unfolding memory_get memory_erase
memory_erase_absent s = refl

-- The store in memory keeps the promises of the interface.
abbrev pub memory_store : BlobStore MemoryBlobStore
memory_store = record {
  get = memory_get;
  put = memory_put;
  erase = memory_erase;
  put_refused = memory_put_refused;
  put_stored = memory_put_stored;
  erase_absent = memory_erase_absent;
}
