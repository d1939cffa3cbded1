-- ===== src/HashTable/Hashing.antt =====
-- The two hash functions of Linux/hashtable.c.
use Prim.Native.Nat.{bit_xor}
use thread_scheduler_multipl.Base.{
  ℕ, ◌+◌, ◌-◌, ◌*◌, ◌/◌, ◌%◌, ◌^◌, ◌<◌, ◌≡◌, List, [], ◌∷◌, arith, ltb, if◌then◌else◌, ◌∙◌,
}

-- An `unsigned long` has 64 bits on Linux.
abbrev mul_u64 : ℕ → ℕ → ℕ
mul_u64 a b = a * b % 2 ^ 64

-- The result is cut to an `unsigned int`.
unfoldable pub hash_function_ulong : ℕ → ℕ
hash_function_ulong a =
    let x = mul_u64 (bit_xor (a / 2 ^ 16) a) 0x45d9f3b in
    let y = mul_u64 (bit_xor (x / 2 ^ 16) x) 0x45d9f3b in bit_xor (y / 2 ^ 16) y % 2 ^ 32

-- `(char *)a)[i]` as an operand of `unsigned int`: a `char` is signed.
abbrev char_operand : ℕ → ℕ
char_operand c = if ltb c 128 then c else 2 ^ 32 - 256 + c

-- The `for` of `hash_function_strings`, over the bytes before the NUL.
pub hash_loop : ℕ → List ℕ → ℕ
hash_loop hash [] = hash
hash_loop hash (c ∷ cs) = hash_loop ((hash * 31 % 2 ^ 32 + char_operand c) % 2 ^ 32) cs

pub hash_function_strings : List ℕ → ℕ
unfolding hash_loop
hash_function_strings a = hash_loop 7 a

-- The value of the bytes as digits to the base 31, after `hash`.
pub polynomial : ℕ → List ℕ → ℕ
polynomial hash [] = hash
polynomial hash (c ∷ cs) = polynomial (hash * 31 + char_operand c) cs

polynomial-mod :
    (a b : ℕ) (cs : List ℕ)
    → a % 2 ^ 32 ≡ b % 2 ^ 32
    → polynomial a cs % 2 ^ 32 ≡ polynomial b cs % 2 ^ 32
unfolding polynomial
polynomial-mod a b [] h = h
polynomial-mod a b (c ∷ cs) h =
    polynomial-mod (a * 31 + char_operand c) (b * 31 + char_operand c) cs (omega arith)

hash_loop-polynomial :
    (hash : ℕ) (cs : List ℕ) → hash < 2 ^ 32 → hash_loop hash cs ≡ polynomial hash cs % 2 ^ 32
unfolding hash_loop polynomial
hash_loop-polynomial hash [] h = omega arith
hash_loop-polynomial hash (c ∷ cs) h =
    hash_loop-polynomial ((hash * 31 % 2 ^ 32 + char_operand c) % 2 ^ 32) cs (omega arith)
    ∙ polynomial-mod ((hash * 31 % 2 ^ 32 + char_operand c) % 2 ^ 32) (hash * 31 + char_operand c)
        cs (omega arith)

-- `hash_function_strings` is the value of 7 followed by the characters (signed, as operands of
-- `unsigned int`) as digits to the base 31, modulo 2^32.
pub hash_strings-polynomial : (cs : List ℕ) → hash_function_strings cs ≡ polynomial 7 cs % 2 ^ 32
unfolding hash_function_strings
hash_strings-polynomial cs = hash_loop-polynomial 7 cs (omega arith)
