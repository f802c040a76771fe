-- ===== src/Kernel/Reference.antt =====
-- Queues and slabs that meet the laws: a list, and the number of blocks in use.
use sense_firmware.Prelude.{
  ℕ, ◌+◌, ◌-◌, ◌≤◌, ◌<◌, ◌≡◌, refl, List, [], ◌∷◌, ◌++◌, Option, none, some, length, ℤ, pos, enomem,
  enomsg, ltb, if◌then◌else◌, arith,
}
use sense_firmware.Kernel.{MsgQueue, MemSlab}

module _ (A : Type 0) (max_msgs : ℕ) where
  abbrev pub list_put : List A → A → ℤ × List A
  list_put q a = if ltb (length q) max_msgs then (pos 0, q ++ a ∷ []) else (enomsg, q)

  abbrev pub list_get : List A → Option (A × List A)
  list_get [] = none
  list_get (a ∷ rest) = some (a, rest)

  pub put_room_lem :
      (q : List A) (a : A)
      → length q < max_msgs
      → ((list_put q a).0 ≡ pos 0) × ((list_put q a).1 ≡ q ++ a ∷ [])
  put_room_lem q a h = ground arith

  pub put_full_lem : (q : List A) (a : A) → max_msgs ≤ length q → list_put q a ≡ (enomsg, q)
  put_full_lem q a h = ground arith

  pub get_empty_lem : (q : List A) → q ≡ [] → list_get q ≡ none
  get_empty_lem [] e = refl
  get_empty_lem (x ∷ q) e = cc

  pub get_first_lem :
      (q : List A) (a : A) (rest : List A)
      → q ≡ a ∷ rest
      → (q' : List A) × (list_get q ≡ some (a, q')) × (q' ≡ rest)
  get_first_lem [] a rest e = cc
  get_first_lem (x ∷ q) a rest e = (q, cc, cc)

  abbrev pub list_queue : MsgQueue A max_msgs
  list_queue = record {
    Queue = List A;
    items = λ q. q;
    put = list_put;
    get = list_get;
    put_room = put_room_lem;
    put_full = put_full_lem;
    get_empty = get_empty_lem;
    get_first = get_first_lem;
  }

module _ (A : Type 0) (block : A) (num_blocks : ℕ) where
  abbrev pub count_alloc : ℕ → ℤ × A × ℕ
  count_alloc s = if ltb s num_blocks then (pos 0, block, s + 1) else (enomem, block, s)

  pub alloc_room_lem :
      (s : ℕ) → s < num_blocks → ((count_alloc s).0 ≡ pos 0) × ((count_alloc s).2 ≡ s + 1)
  alloc_room_lem s h = ground arith

  pub alloc_full_lem :
      (s : ℕ) → num_blocks ≤ s → ((count_alloc s).0 ≡ enomem) × ((count_alloc s).2 ≡ s)
  alloc_full_lem s h = ground arith

  abbrev pub counting_slab : MemSlab A num_blocks
  counting_slab = record {
    Slab = ℕ;
    num_used = λ s. s;
    alloc = count_alloc;
    free = λ s. s - 1;
    alloc_room = alloc_room_lem;
    alloc_full = alloc_full_lem;
    free_used = λ s. refl;
  }
