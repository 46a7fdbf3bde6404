-- ===== src/Pipeline/Numbers.antt =====
-- The slaves of a config file that src/generate_config_file.cpp wrote have distinct numbers, before
-- and after src/packet_sniffer.cpp has read their data.
use kddv.Base.{ℕ, suc, ◌≤◌, ◌≡◌, ◌≢◌, refl, ◌∙◌, pos, List, [], ◌∷◌, All, arith}
use kddv.Slave.{SlaveInfo, EthercatSlave, Device}
use kddv.Source.{Uninitialised}
use kddv.Source.Message.{DistinctNumbers}
use kddv.Sniffer.Delivery.{with_devices}
use kddv.Generator.{SdoRead, Mapped}
use kddv.Generator.Info.{BusSlave}
use kddv.Generator.Listed.{Listed, done, skipped, listed}

-- The number is a position on the bus, from `cnt` on.
abbrev From : ℕ → SlaveInfo → Type 0
From cnt info = (n : ℕ) × (info.slave_number ≡ pos n) × (cnt ≤ n)

later-From :
    (cnt : ℕ) (ss : List EthercatSlave)
    → All (λ s. From (suc cnt) s.slave_info) ss
    → All (λ s. From cnt s.slave_info) ss
later-From cnt [] h = tt
later-From cnt (s ∷ ss) ((n, e, above), h) = ((n, e, omega (arith, above)), later-From cnt ss h)

module _ (u : Uninitialised) (fuel : ℕ) (read : SdoRead) (m : Mapped) where
  Listed-From :
      (slaves : List BusSlave) (cnt : ℕ) (ss : List EthercatSlave)
      → Listed u fuel read m slaves cnt ss
      → All (λ s. From cnt s.slave_info) ss
  Listed-From [] cnt _ done = tt
  Listed-From (b ∷ rest) cnt ss (skipped off l) =
      later-From cnt ss (Listed-From rest (suc cnt) ss l)
  Listed-From (b ∷ rest) cnt _
        (listed {ss = ss} d found o rx tx on made mapped is ints ids number l) =
      ((cnt, refl, omega arith), later-From cnt ss (Listed-From rest (suc cnt) ss l))

  pos-injective : (a b : ℕ) → pos a ≡ pos b → a ≡ b
  pos-injective a b e = ground (arith, e)

  apart :
      (cnt : ℕ) (ss : List EthercatSlave)
      → All (λ s. From (suc cnt) s.slave_info) ss
      → All (λ t. pos cnt ≢ t.slave_info.slave_number) ss
  apart cnt [] h = tt
  apart cnt (s ∷ ss) ((n, e, above), h) =
      ((λ same. omega (arith, pos-injective cnt n (same ∙ e), above)), apart cnt ss h)

  pub Listed-DistinctNumbers :
      (slaves : List BusSlave) (cnt : ℕ) (ss : List EthercatSlave)
      → Listed u fuel read m slaves cnt ss
      → DistinctNumbers ss
  Listed-DistinctNumbers [] cnt _ done = tt
  Listed-DistinctNumbers (b ∷ rest) cnt ss (skipped off l) =
      Listed-DistinctNumbers rest (suc cnt) ss l
  Listed-DistinctNumbers (b ∷ rest) cnt _
        (listed {ss = ss} d found o rx tx on made mapped is ints ids number l) =
      (apart cnt ss (Listed-From rest (suc cnt) ss l), Listed-DistinctNumbers rest (suc cnt) ss l)

All-with_devices :
    (P : SlaveInfo → Type 0) (ss : List EthercatSlave) (ds : List Device)
    → All (λ s. P s.slave_info) ss
    → All (λ s. P s.slave_info) (with_devices ss ds)
All-with_devices P [] ds h = tt
All-with_devices P (s ∷ ss) [] h = h
All-with_devices P (s ∷ ss) (d ∷ ds) h = (h.0, All-with_devices P ss ds h.1)

pub with_devices-DistinctNumbers :
    (ss : List EthercatSlave) (ds : List Device)
    → DistinctNumbers ss
    → DistinctNumbers (with_devices ss ds)
with_devices-DistinctNumbers [] ds h = tt
with_devices-DistinctNumbers (s ∷ ss) [] h = h
with_devices-DistinctNumbers (s ∷ ss) (d ∷ ds) (apart_from, h) = (
  All-with_devices (λ i. s.slave_info.slave_number ≢ i.slave_number) ss ds apart_from,
  with_devices-DistinctNumbers ss ds h,
)
