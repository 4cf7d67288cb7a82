-- ===== src/Bitset/Defs.antt =====
-- The state of a `dynamic_bitset`, and the operations that change its bits.
use cu_collections.Common.{
  ℕ, ◌+◌, ◌-◌, ◌*◌, ◌/◌, ◌%◌, ◌^◌, bit_and, bit_or, Bool, false, ltb, ◌==◌, if◌then◌else◌,
}
use cu_collections.Bitset.Grid.{assign}

abbrev pub words_per_block : ℕ
words_per_block = 4

abbrev pub bits_per_word : ℕ
bits_per_word = 64

abbrev pub bits_per_block : ℕ
bits_per_block = words_per_block * bits_per_word

-- A device vector: its elements, and those that its memory has past its end.
pub record Vector {ℓ} (A : Type ℓ) : Type ℓ where
  pub size : ℕ
  pub at : ℕ → A

-- New elements are `blank`.
unfoldable pub resize {ℓ} : {A : Type ℓ} → Vector A → ℕ → A → Vector A
resize v n blank = record { size = n; at = λ i. if ltb i v.size then v.at i else blank }

-- 40 bits of base, and the ranks of three words relative to it
pub record Rank : Type 0 where
  pub base_hi : ℕ
  pub base_lo : ℕ
  pub offsets : ℕ → ℕ

unfoldable pub base : Rank → ℕ
base k = bit_or (k.base_hi * 2 ^ 8) k.base_lo

unfoldable pub set_base : Rank → ℕ → Rank
set_base k n = record { base_hi = n / 2 ^ 8 % 2 ^ 32; base_lo = n % 2 ^ 8; offsets = k.offsets }

abbrev pub blank_rank : Rank
blank_rank = record { base_hi = 0; base_lo = 0; offsets = λ _. 0 }

pub record DynamicBitset : Type 0 where
  pub n_bits : ℕ
  pub is_built : Bool
  pub words : Vector ℕ
  pub ranks_true : Vector Rank
  pub ranks_false : Vector Rank
  pub selects_true : Vector ℕ
  pub selects_false : Vector ℕ

-- The constructor.
abbrev pub empty_bitset : DynamicBitset
empty_bitset = record {
  n_bits = 0;
  is_built = false;
  words = record { size = 0; at = λ _. 0 };
  ranks_true = record { size = 0; at = λ _. blank_rank };
  ranks_false = record { size = 0; at = λ _. blank_rank };
  selects_true = record { size = 0; at = λ _. 0 };
  selects_false = record { size = 0; at = λ _. 0 };
}

-- The word with its bit `bit_id` set to `bit`; `~x` is `2 ^ 64 - 1 - x`.
unfoldable pub set_bit : ℕ → ℕ → Bool → ℕ
set_bit word bit_id bit =
    if bit then bit_or word (2 ^ bit_id) else bit_and word (2 ^ 64 - 1 - 2 ^ bit_id)

unfoldable pub set : ℕ → Bool → DynamicBitset → DynamicBitset
unfolding assign set_bit
set index bit b =
    let word_id = index / bits_per_word in
    let bit_id = index % bits_per_word in
    record {
      n_bits = b.n_bits;
      is_built = false;
      words = record {
        size = b.words.size;
        at = assign b.words.at word_id (set_bit (b.words.at word_id) bit_id bit);
      };
      ranks_true = b.ranks_true;
      ranks_false = b.ranks_false;
      selects_true = b.selects_true;
      selects_false = b.selects_false;
    }

-- The bitset with one block more when the last block is full.
unfoldable pub extend : DynamicBitset → DynamicBitset
unfolding resize
extend b = record {
  n_bits = b.n_bits;
  is_built = b.is_built;
  words =
      if b.n_bits % bits_per_block == 0
      then resize b.words (b.words.size + words_per_block) 0
      else b.words;
  ranks_true = b.ranks_true;
  ranks_false = b.ranks_false;
  selects_true = b.selects_true;
  selects_false = b.selects_false;
}

-- `n_bits_++`
abbrev pub count_bit : DynamicBitset → DynamicBitset
count_bit b = record {
  n_bits = b.n_bits + 1;
  is_built = b.is_built;
  words = b.words;
  ranks_true = b.ranks_true;
  ranks_false = b.ranks_false;
  selects_true = b.selects_true;
  selects_false = b.selects_false;
}

unfoldable pub push_back : Bool → DynamicBitset → DynamicBitset
unfolding extend set
push_back bit b = set b.n_bits bit (count_bit (extend b))

-- `n_bits - 1` wraps around where there is no bit.
unfoldable pub set_last : Bool → DynamicBitset → DynamicBitset
unfolding set
set_last bit b = set ((b.n_bits + 2 ^ 64 - 1) % 2 ^ 64) bit b
