-- ===== src/App/Scan/Table.antt =====
-- The table of scanned devices in main.c: what any sequence of advertising reports leaves in it.
use central_uart.Prelude.{
  ℕ, zero, suc, ◌+◌, ◌≤◌, ◌<◌, ◌≡◌, refl, sym, subst, ◌∙◌, ap, Bool, true, false, not, none, some,
  List, [], ◌∷◌, arith, length, Option-cases, Bool-cases, inl, inr, some_inj,
}
use central_uart.App.{Address, ScannedDevice}
use central_uart.App.Scan.{
  Radio, name_size, no_device, copies, update_at, find_index, is_entry_of, find_scan_entry,
}

pub update_at-length :
    {A : Type 0} (n : ℕ) (f : A → A) (xs : List A) → length (update_at n f xs) ≡ length xs
update_at-length n f [] = refl
update_at-length zero f (x ∷ xs) = refl
update_at-length (suc n) f (x ∷ xs) = ap suc (update_at-length n f xs)

find_tail :
    {A : Type 0} (p : A → Bool) (x : A) (xs : List A) (j : ℕ)
    → p x ≡ false
    → find_index p (x ∷ xs) ≡ some j
    → (i : ℕ) × (find_index p xs ≡ some i) × (j ≡ suc i)
find_tail p x xs j off e = elim (Option-cases (find_index p xs)) [
  | inl all_off ↦ ground arith
  | inr (i, found) ↦ (i, found, some_inj (sym e ∙ (rw (off, found) refl)))
]

pub find_none :
    {A : Type 0} (p : A → Bool) (x : A) (xs : List A)
    → find_index p (x ∷ xs) ≡ none
    → (p x ≡ false) × (find_index p xs ≡ none)
find_none p x xs e = elim (Option-cases (find_index p xs)) [
  | inl all_off ↦ (ground arith, all_off)
  | inr (i, found) ↦ ground arith
]

find_both :
    {A : Type 0} (p : A → Bool) (x : A) (xs : List A)
    → p x ≡ false
    → find_index p xs ≡ none
    → find_index p (x ∷ xs) ≡ none
find_both p x xs off e = rw (off, e)

module _ {K : Type 0} (radio : Radio K) where
  -- The table from position `i` on, with `n` the next index: `n - i` devices with their positions as
  -- indices and with addresses that no later entry has, then entries that are all zero.
  pub data Slots : ℕ → ℕ → List ScannedDevice → Type 0 where
    free : {i : ℕ} (m : ℕ) → Slots i i (copies m no_device)
    taken :
        {i n : ℕ} {d : ScannedDevice} {ds : List ScannedDevice}
        → d.valid ≡ true
        → d.index ≡ i
        → length d.name < name_size
        → find_scan_entry radio d.addr ds ≡ none
        → Slots (suc i) n ds
        → Slots i n (d ∷ ds)

  free-find : (addr : Address) (m : ℕ) → find_scan_entry radio addr (copies m no_device) ≡ none
  unfolding find_scan_entry
  free-find addr zero = refl
  free-find addr (suc m) = rw (free-find addr m)

  pub Slots-le : (i n : ℕ) (ds : List ScannedDevice) → Slots i n ds → n ≤ i + length ds
  Slots-le i n ds (free m) = omega arith
  Slots-le i n (d ∷ ds) (taken v x l f s) = omega (arith, Slots-le (suc i) n ds s)

  -- A write that leaves validity and address alone leaves what is found alone.
  update-find :
      (addr : Address) (f : ScannedDevice → ScannedDevice) (j : ℕ) (ds : List ScannedDevice)
      → ((d : ScannedDevice) → is_entry_of radio addr (f d) ≡ is_entry_of radio addr d)
      → find_scan_entry radio addr (update_at j f ds) ≡ find_scan_entry radio addr ds
  unfolding find_scan_entry
  update-find addr f j [] same = refl
  update-find addr f zero (d ∷ ds) same = rw (same d)
  update-find addr f (suc j) (d ∷ ds) same = rw (update-find addr f j ds same)

  -- A new device is not found where neither it nor the old entries are.
  store-find :
      (addr : Address) (e : ScannedDevice) (j : ℕ) (ds : List ScannedDevice)
      → is_entry_of radio addr e ≡ false
      → find_scan_entry radio addr ds ≡ none
      → find_scan_entry radio addr (update_at j (λ _. e) ds) ≡ none
  unfolding find_scan_entry
  store-find addr e j [] off h = refl
  store-find addr e zero (d ∷ ds) off h =
      find_both (is_entry_of radio addr) e ds off (find_none (is_entry_of radio addr) d ds h).1
  store-find addr e (suc j) (d ∷ ds) off h =
      let (off_d, off_ds) = find_none (is_entry_of radio addr) d ds h in
      find_both (is_entry_of radio addr) d (update_at j (λ _. e) ds) off_d
        (store-find addr e j ds off off_ds)

  pub rssi-Slots :
      (rssi i n j : ℕ) (ds : List ScannedDevice) (addr : Address)
      → Slots i n ds
      → find_scan_entry radio addr ds ≡ some j
      → Slots i n (update_at j (λ d. record d { rssi = rssi }) ds)
  unfolding find_scan_entry
  rssi-Slots rssi i n j ds addr (free m) found = (let h = free-find addr m in ground arith)
  rssi-Slots rssi i n zero (d ∷ ds) addr (taken v x l f s) found = taken v x l f s
  rssi-Slots rssi i n (suc j) (d ∷ ds) addr (taken v x l f s) found =
      let set : ScannedDevice → ScannedDevice = λ d. record d { rssi = rssi } in
      elim (Bool-cases (is_entry_of radio addr d)) [
        | inl on ↦ ground arith
        | inr off ↦
            (let (k, found_ds, e) = find_tail (is_entry_of radio addr) d ds (suc j) off found in
              taken v x l (update-find d.addr set j ds (λ _. refl) ∙ f)
                (rssi-Slots rssi (suc i) n j ds addr s (found_ds ∙ ap some (omega (arith, e)))))
      ]

  -- A new device at the first free entry, with the next index.
  pub store-Slots :
      (e : ScannedDevice) (i n j : ℕ) (ds : List ScannedDevice)
      → ((a b : Address) → radio.addr_equal a b ≡ radio.addr_equal b a)
      → e.valid ≡ true
      → e.index ≡ n
      → length e.name < name_size
      → Slots i n ds
      → find_scan_entry radio e.addr ds ≡ none
      → find_index (λ d. not d.valid) ds ≡ some j
      → Slots i (suc n) (update_at j (λ _. e) ds)
  unfolding find_scan_entry
  store-Slots e i n j ds symmetric valid index short (free zero) fresh found = ground arith
  store-Slots e i n zero ds symmetric valid index short (free (suc m)) fresh found =
      taken valid index short (free-find e.addr m) (free m)
  store-Slots e i n (suc j) ds symmetric valid index short (free (suc m)) fresh found = ground arith
  store-Slots e i n j (d ∷ ds) symmetric valid index short (taken v x l f s) fresh found =
      let (other, fresh_ds) = find_none (is_entry_of radio e.addr) d ds fresh in
      let (k, found_ds, eq) = find_tail (λ d. not d.valid) d ds j (ap not v) found in
      let apart : is_entry_of radio d.addr e ≡ false =
        rw (symmetric e.addr d.addr) (ground arith) in
      subst (λ j. Slots i (suc n) (update_at j (λ _. e) (d ∷ ds))) (sym eq)
        (taken v x l (store-find d.addr e k ds apart f)
          (store-Slots e (suc i) n k ds symmetric valid index short s fresh_ds found_ds))
