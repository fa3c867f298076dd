-- ===== src/UniqueId/Machine/Hash.antt =====
-- The hash of the MAC address: its range, and that the process id does not get into it.
use Prim.Native.Nat.add
use apache_thrift_benchmarki.Prelude.{
  ℕ, zero, suc, ◌+◌, ◌^◌, ◌≤◌, ◌<◌, ◌≡◌, refl, ap, ◌∙◌, [], ◌∷◌, ◌++◌, arith, length, length-append,
  get_or,
}
use apache_thrift_benchmarki.Format.{Text, to_string}
use apache_thrift_benchmarki.UniqueId.Machine.{
  char_at, hash_round, hash_rounds, hash_mac_address_pid,
}

module _ (mac : Text) (beyond : ℕ → ℕ) where
  hash_round-lt : (i hash : ℕ) → hash_round mac beyond i hash < 2 ^ 16
  unfolding hash_round
  hash_round-lt i hash = omega arith

  hash_rounds-lt :
      (rounds i hash : ℕ) → hash < 2 ^ 16 → hash_rounds mac beyond rounds i hash < 2 ^ 16
  unfolding hash_rounds
  hash_rounds-lt zero i hash h = h
  hash_rounds-lt (suc rounds) i hash h = hash_rounds-lt rounds (i + 1) _ (hash_round-lt i hash)

  -- The hash is a uint16_t.
  pub hash_mac_address_pid-lt : (pid : ℕ) → hash_mac_address_pid mac beyond pid < 2 ^ 16
  unfolding hash_mac_address_pid
  hash_mac_address_pid-lt pid = hash_rounds-lt (length (mac ++ to_string pid)) 0 0 (omega arith)

  hash_rounds-add :
      (m n i hash : ℕ)
      → hash_rounds mac beyond (m + n) i hash
        ≡ hash_rounds mac beyond n (i + m) (hash_rounds mac beyond m i hash)
  unfolding hash_rounds
  hash_rounds-add zero n i hash =
      rw (add.zero n) (ap (λ j. hash_rounds mac beyond n j hash) (omega arith))
  hash_rounds-add (suc m) n i hash = rw (add.suc m n) (
      hash_rounds-add m n (i + 1) (hash_round mac beyond i hash)
      ∙ ap (λ j. hash_rounds mac beyond n j (hash_rounds mac beyond (suc m) i hash)) (omega arith))

get_or-outside : (s : Text) (i d : ℕ) → length s ≤ i → get_or s i d ≡ d
get_or-outside [] i d h = refl
get_or-outside (c ∷ s) zero d h = absurd (omega arith)
get_or-outside (c ∷ s) (suc i) d h = get_or-outside s i d (omega arith)

module _ (mac : Text) (beyond : ℕ → ℕ) (blank : (i : ℕ) → beyond i ≡ 0) where
  char_at-outside : (i : ℕ) → length mac ≤ i → char_at mac beyond i ≡ 0
  unfolding char_at
  char_at-outside i h = get_or-outside mac i _ h ∙ ground (arith, blank i)

  hash_round-outside :
      (i hash : ℕ) → length mac ≤ i → hash < 2 ^ 16 → hash_round mac beyond i hash ≡ hash
  unfolding hash_round
  hash_round-outside i hash h small = rw (char_at-outside i h) (omega arith)

  hash_rounds-outside :
      (rounds i hash : ℕ)
      → length mac ≤ i
      → hash < 2 ^ 16
      → hash_rounds mac beyond rounds i hash ≡ hash
  unfolding hash_rounds
  hash_rounds-outside zero i hash h small = refl
  hash_rounds-outside (suc rounds) i hash h small =
      hash_rounds-outside rounds (i + 1) _ (omega arith) (hash_round-lt mac beyond i hash)
      ∙ hash_round-outside i hash h small

  -- Where the memory behind the text of the address holds zeros, the hash is that of the address
  -- alone, whatever the process id.
  pub hash_mac_address_pid-eq :
      (pid : ℕ) → hash_mac_address_pid mac beyond pid ≡ hash_rounds mac beyond (length mac) 0 0
  unfolding hash_mac_address_pid
  hash_mac_address_pid-eq pid =
      ap (λ n. hash_rounds mac beyond n 0 0) (length-append mac (to_string pid))
      ∙ hash_rounds-add mac beyond (length mac) (length (to_string pid)) 0 0
      ∙ hash_rounds-outside (length (to_string pid)) (0 + length mac)
          (hash_rounds mac beyond (length mac) 0 0) (omega arith)
          (hash_rounds-lt mac beyond (length mac) 0 0 (omega arith))
