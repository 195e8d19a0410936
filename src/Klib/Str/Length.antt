-- ===== src/Klib/Str/Length.antt =====
-- strlen of klib/src/string.c, and what keeps a C string.
use openperf_abstract_machin.Prelude.{
  ℕ, zero, suc, ◌+◌, ◌<◌, ◌≡◌, ◌≢◌, some, Memory, IsString, write, arith,
}
use openperf_abstract_machin.Klib.Str.{strlen_loop, strlen}

module _ {m : Memory} (s n : ℕ) where
  -- One character on, the string is one shorter.
  pub IsString-suc : IsString m s (suc n) → IsString m (s + 1) n
  IsString-suc str = record {
    body = λ j h e. str.body (suc j) (omega arith) (ground arith);
    ends = ground (arith, str.ends);
  }

  pub IsString-first_ne : IsString m s (suc n) → m s ≢ 0
  IsString-first_ne str e = str.body 0 (omega arith) (ground arith)

  -- A write outside of a string and its NUL keeps the string.
  pub IsString-write :
      (a v : ℕ) → ((j : ℕ) → j < n + 1 → s + j ≢ a) → IsString m s n → IsString (write m a v) s n
  IsString-write a v out str = record {
    body = λ j h. ground (arith, out j, str.body j);
    ends = ground (arith, out n, str.ends);
  }

pub IsString-zero : {m : Memory} (s : ℕ) → IsString m s 0 → m s ≡ 0
IsString-zero s str = ground (arith, str.ends)

strlen_loop_lem :
    (fuel s count n : ℕ) (m : Memory)
    → IsString m s n
    → n < fuel
    → strlen_loop fuel s count m ≡ some (count + n)
unfolding strlen_loop
strlen_loop_lem zero s count n m str h = absurd (omega arith)
strlen_loop_lem (suc fuel) s count zero m str h = ground (arith, IsString-zero s str)
strlen_loop_lem (suc fuel) s count (suc n) m str h = ground (
  arith,
  IsString-first_ne s n str,
  strlen_loop_lem fuel (s + 1) (count + 1) n m (IsString-suc s n str) (omega arith),
)

-- strlen returns the length of the string at any address other than NULL, within as many rounds as
-- the string and its NUL have bytes.
pub strlen_lem :
    (fuel s n : ℕ) (m : Memory) → s ≢ 0 → IsString m s n → n < fuel → strlen fuel s m ≡ some n
unfolding strlen
strlen_lem fuel s n m ne str h = ground (arith, strlen_loop_lem fuel s 0 n m str h)
