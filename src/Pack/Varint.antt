-- ===== src/Pack/Varint.antt =====
-- The variable-length integers: seven bits a byte, lowest group first, the top bit set on every
-- byte but the last. A buffer [d, e) or [s, e) is the list of its bytes.
pub mod Groups
pub mod Encode
use sserialize.Base.{ℕ, zero, suc, ◌+◌, ◌-◌, ◌*◌, ◌/◌, ◌%◌, ◌^◌, ◌==◌, ltb, leb, if◌then◌else◌}
use sserialize.Base.{List, [], ◌∷◌, Option, none, some, Bool, bit_or, bit_and, length, ℤ, negsuc}
use sserialize.Pack.Buffer.{put}

-- COMPARE_S(k).
abbrev pub compare_s : ℕ → ℕ → Bool
compare_s s k = s / 2 ^ k == 0

-- What assigning `s >> k`, and `(s >> k) | 0x80`, to a uint8_t stores.
abbrev pub byte : ℕ → ℕ → ℕ
byte s k = s / 2 ^ k % 256

abbrev pub byte_more : ℕ → ℕ → ℕ
byte_more s k = bit_or (s / 2 ^ k) 0x80 % 256

-- p_v<uint32_t> where at least five bytes are left, and where each branch tests for room.
p_v_u32_fast : ℕ → List ℕ → Option (ℤ × List ℕ)
p_v_u32_fast s buf =
    if compare_s s 7
    then (put 1 ((byte s 0) ∷ []) buf)
    else if compare_s s 14
    then (put 2 ((byte_more s 0) ∷ (byte s 7) ∷ []) buf)
    else if compare_s s 21
    then (put 3 ((byte_more s 0) ∷ (byte_more s 7) ∷ (byte s 14) ∷ []) buf)
    else if compare_s s 28
    then (put 4 ((byte_more s 0) ∷ (byte_more s 7) ∷ (byte_more s 14) ∷ (byte s 21) ∷ []) buf)
    else (put 5
        ((byte_more s 0) ∷ (byte_more s 7) ∷ (byte_more s 14) ∷ (byte_more s 21) ∷ (byte s 28) ∷ [])
        buf)

p_v_u32_checked : ℕ → List ℕ → Option (ℤ × List ℕ)
p_v_u32_checked s buf =
    if compare_s s 7
    then (if ltb (length buf) 1 then some (negsuc 0, buf) else put 1 ((byte s 0) ∷ []) buf)
    else if compare_s s 14
    then (if ltb (length buf) 2
        then some (negsuc 1, buf)
        else put 2 ((byte_more s 0) ∷ (byte s 7) ∷ []) buf)
    else if compare_s s 21
    then (if ltb (length buf) 3
        then some (negsuc 2, buf)
        else put 3 ((byte_more s 0) ∷ (byte_more s 7) ∷ (byte s 14) ∷ []) buf)
    else if compare_s s 28
    then (if ltb (length buf) 4
        then some (negsuc 3, buf)
        else put 4 ((byte_more s 0) ∷ (byte_more s 7) ∷ (byte_more s 14) ∷ (byte s 21) ∷ []) buf)
    else (if ltb (length buf) 5
        then some (negsuc 4, buf)
        else put 5
            ((byte_more s 0)
              ∷ (byte_more s 7)
              ∷ (byte_more s 14)
              ∷ (byte_more s 21)
              ∷ (byte s 28)
              ∷ [])
            buf)

unfoldable pub p_v_u32 : ℕ → List ℕ → Option (ℤ × List ℕ)
unfolding p_v_u32_fast p_v_u32_checked
p_v_u32 s buf = if leb 5 (length buf) then p_v_u32_fast s buf else p_v_u32_checked s buf

-- p_v<uint64_t>, where at least ten bytes are left, and otherwise.
p_v_u64_fast : ℕ → List ℕ → Option (ℤ × List ℕ)
p_v_u64_fast s buf =
    if compare_s s 28
    then (if compare_s s 14
        then (if compare_s s 7
            then (put 1 ((byte s 0) ∷ []) buf)
            else (put 2 ((byte_more s 0) ∷ (byte s 7) ∷ []) buf))
        else (if compare_s s 21
            then (put 3 ((byte_more s 0) ∷ (byte_more s 7) ∷ (byte s 14) ∷ []) buf)
            else (put 4 ((byte_more s 0) ∷ (byte_more s 7) ∷ (byte_more s 14) ∷ (byte s 21) ∷ [])
                buf)))
    else (if compare_s s 42
        then (if compare_s s 35
            then (put 5
                ((byte_more s 0)
                  ∷ (byte_more s 7)
                  ∷ (byte_more s 14)
                  ∷ (byte_more s 21)
                  ∷ (byte s 28)
                  ∷ [])
                buf)
            else (put 6
                ((byte_more s 0)
                  ∷ (byte_more s 7)
                  ∷ (byte_more s 14)
                  ∷ (byte_more s 21)
                  ∷ (byte_more s 28)
                  ∷ (byte s 35)
                  ∷ [])
                buf))
        else (if compare_s s 56
            then (if compare_s s 49
                then (put 7
                    ((byte_more s 0)
                      ∷ (byte_more s 7)
                      ∷ (byte_more s 14)
                      ∷ (byte_more s 21)
                      ∷ (byte_more s 28)
                      ∷ (byte_more s 35)
                      ∷ (byte s 42)
                      ∷ [])
                    buf)
                else (put 8
                    ((byte_more s 0)
                      ∷ (byte_more s 7)
                      ∷ (byte_more s 14)
                      ∷ (byte_more s 21)
                      ∷ (byte_more s 28)
                      ∷ (byte_more s 35)
                      ∷ (byte_more s 42)
                      ∷ (byte s 49)
                      ∷ [])
                    buf))
            else (if compare_s s 63
                then (put 9
                    ((byte_more s 0)
                      ∷ (byte_more s 7)
                      ∷ (byte_more s 14)
                      ∷ (byte_more s 21)
                      ∷ (byte_more s 28)
                      ∷ (byte_more s 35)
                      ∷ (byte_more s 42)
                      ∷ (byte_more s 49)
                      ∷ (byte s 56)
                      ∷ [])
                    buf)
                else (put 10
                    ((byte_more s 0)
                      ∷ (byte_more s 7)
                      ∷ (byte_more s 14)
                      ∷ (byte_more s 21)
                      ∷ (byte_more s 28)
                      ∷ (byte_more s 35)
                      ∷ (byte_more s 42)
                      ∷ (byte_more s 49)
                      ∷ (byte_more s 56)
                      ∷ (byte s 63)
                      ∷ [])
                    buf))))

p_v_u64_checked : ℕ → List ℕ → Option (ℤ × List ℕ)
p_v_u64_checked s buf =
    if compare_s s 28
    then (if compare_s s 14
        then (if compare_s s 7
            then (if ltb (length buf) 1 then some (negsuc 0, buf) else put 1 ((byte s 0) ∷ []) buf)
            else (if ltb (length buf) 2
                then some (negsuc 1, buf)
                else put 2 ((byte_more s 0) ∷ (byte s 7) ∷ []) buf))
        else (if compare_s s 21
            then (if ltb (length buf) 3
                then some (negsuc 2, buf)
                else put 3 ((byte_more s 0) ∷ (byte_more s 7) ∷ (byte s 14) ∷ []) buf)
            else (if ltb (length buf) 4
                then some (negsuc 3, buf)
                else put 4 ((byte_more s 0) ∷ (byte_more s 7) ∷ (byte_more s 14) ∷ (byte s 21) ∷ [])
                    buf)))
    else (if compare_s s 42
        then (if compare_s s 35
            then (if ltb (length buf) 5
                then some (negsuc 4, buf)
                else put 5
                    ((byte_more s 0)
                      ∷ (byte_more s 7)
                      ∷ (byte_more s 14)
                      ∷ (byte_more s 21)
                      ∷ (byte s 28)
                      ∷ [])
                    buf)
            else (if ltb (length buf) 6
                then some (negsuc 5, buf)
                else put 6
                    ((byte_more s 0)
                      ∷ (byte_more s 7)
                      ∷ (byte_more s 14)
                      ∷ (byte_more s 21)
                      ∷ (byte_more s 28)
                      ∷ (byte s 35)
                      ∷ [])
                    buf))
        else (if compare_s s 56
            then (if compare_s s 49
                then (if ltb (length buf) 7
                    then some (negsuc 6, buf)
                    else put 7
                        ((byte_more s 0)
                          ∷ (byte_more s 7)
                          ∷ (byte_more s 14)
                          ∷ (byte_more s 21)
                          ∷ (byte_more s 28)
                          ∷ (byte_more s 35)
                          ∷ (byte s 42)
                          ∷ [])
                        buf)
                else (if ltb (length buf) 8
                    then some (negsuc 7, buf)
                    else put 8
                        ((byte_more s 0)
                          ∷ (byte_more s 7)
                          ∷ (byte_more s 14)
                          ∷ (byte_more s 21)
                          ∷ (byte_more s 28)
                          ∷ (byte_more s 35)
                          ∷ (byte_more s 42)
                          ∷ (byte s 49)
                          ∷ [])
                        buf))
            else (if compare_s s 63
                then (if ltb (length buf) 9
                    then some (negsuc 8, buf)
                    else put 9
                        ((byte_more s 0)
                          ∷ (byte_more s 7)
                          ∷ (byte_more s 14)
                          ∷ (byte_more s 21)
                          ∷ (byte_more s 28)
                          ∷ (byte_more s 35)
                          ∷ (byte_more s 42)
                          ∷ (byte_more s 49)
                          ∷ (byte s 56)
                          ∷ [])
                        buf)
                else (if ltb (length buf) 10
                    then some (negsuc 9, buf)
                    else put 10
                        ((byte_more s 0)
                          ∷ (byte_more s 7)
                          ∷ (byte_more s 14)
                          ∷ (byte_more s 21)
                          ∷ (byte_more s 28)
                          ∷ (byte_more s 35)
                          ∷ (byte_more s 42)
                          ∷ (byte_more s 49)
                          ∷ (byte_more s 56)
                          ∷ (byte s 63)
                          ∷ [])
                        buf))))

pub p_v_u64 : ℕ → List ℕ → Option (ℤ × List ℕ)
unfolding p_v_u64_fast p_v_u64_checked
p_v_u64 s buf = if leb 10 (length buf) then p_v_u64_fast s buf else p_v_u64_checked s buf
