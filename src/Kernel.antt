-- ===== src/Kernel.antt =====
-- What the program uses of the Zephyr kernel, which is not part of the repository: message queues
-- and memory slabs, always called with K_NO_WAIT. The laws are those of Zephyr's documentation.
pub mod Reference
use sense_firmware.Prelude.{
  ℕ, ◌+◌, ◌-◌, ◌≤◌, ◌<◌, ◌≡◌, List, [], ◌∷◌, ◌++◌, Option, none, some, length, ℤ, pos, enomem,
  enomsg,
}

-- `struct k_msgq` of at most `max_msgs` messages, with `k_msgq_put` and `k_msgq_get`.
pub record MsgQueue (A : Type 0) (max_msgs : ℕ) : Type 1 where
  pub Queue : Type 0
  pub items : Queue → List A
  pub put : Queue → A → ℤ × Queue
  pub get : Queue → Option (A × Queue)
  pub put_room :
      (q : Queue) (a : A)
      → length (items q) < max_msgs
      → ((put q a).0 ≡ pos 0) × (items (put q a).1 ≡ items q ++ a ∷ [])
  pub put_full : (q : Queue) (a : A) → max_msgs ≤ length (items q) → put q a ≡ (enomsg, q)
  pub get_empty : (q : Queue) → items q ≡ [] → get q ≡ none
  pub get_first :
      (q : Queue) (a : A) (rest : List A)
      → items q ≡ a ∷ rest
      → (q' : Queue) × (get q ≡ some (a, q')) × (items q' ≡ rest)

-- `struct k_mem_slab` with `k_mem_slab_alloc` and `k_mem_slab_free`. A block comes with whatever it
-- held before.
pub record MemSlab (A : Type 0) (num_blocks : ℕ) : Type 1 where
  pub Slab : Type 0
  pub num_used : Slab → ℕ
  pub alloc : Slab → ℤ × A × Slab
  pub free : Slab → Slab
  pub alloc_room :
      (s : Slab)
      → num_used s < num_blocks
      → ((alloc s).0 ≡ pos 0) × (num_used (alloc s).2 ≡ num_used s + 1)
  pub alloc_full : (s : Slab) → num_blocks ≤ num_used s → ((alloc s).0 ≡ enomem) × ((alloc s).2 ≡ s)
  pub free_used : (s : Slab) → num_used (free s) ≡ num_used s - 1
