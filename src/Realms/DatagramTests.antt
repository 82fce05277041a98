-- ===== src/Realms/DatagramTests.antt =====
-- A decoder that gives the same datagram for every packet: the connection 7 of the protocol.
use darktide_mods.Base.{
  ℕ, zero, suc, ◌+◌, ◌≡◌, subst, arith, List, [], ◌∷◌, some, length, length-replicate, replicate,
}
use darktide_mods.Realms.Routes.Reads.{Ends}
use darktide_mods.Realms.Datagram.{Decoder, read_route, maximum_engine_datagram_size}
use darktide_mods.Realms.Datagram.Decoded.{AreBytes, IsDecoder, IsDatagramRoute, read_route-Ends}

abbrev datagram : ℕ → List ℕ
datagram n = 0xe5 ∷ 0x3e ∷ 7 ∷ replicate n 0

abbrev one_datagram : Decoder
one_datagram encoded size = some (datagram 1197)

zeros-Bytes : (n : ℕ) → AreBytes (replicate n 0)
zeros-Bytes zero i b e = absurd cc
zeros-Bytes (suc n) zero b e = let same : 0 ≡ b = cc in omega (arith, same)
zeros-Bytes (suc n) (suc i) b e = zeros-Bytes n i b e

datagram-Bytes : (n : ℕ) → AreBytes (datagram n)
datagram-Bytes n zero b e = let same : 0xe5 ≡ b = cc in omega (arith, same)
datagram-Bytes n (suc zero) b e = let same : 0x3e ≡ b = cc in omega (arith, same)
datagram-Bytes n (suc (suc zero)) b e = let same : 7 ≡ b = cc in omega (arith, same)
datagram-Bytes n (suc (suc (suc i))) b e = zeros-Bytes n i b e

length-datagram : (n : ℕ) → length (datagram n) ≡ n + 3
length-datagram n = omega (arith, length-replicate {A = ℕ} n 0)

one_datagram-Decoder : IsDecoder one_datagram
one_datagram-Decoder encoded size decoded fits e =
    let same : datagram 1197 ≡ decoded = cc in
    subst (λ d. (length d ≡ maximum_engine_datagram_size) × AreBytes d) same
      (length-datagram 1197, datagram-Bytes 1197)

read_route_example : Ends IsDatagramRoute (read_route one_datagram (250 ∷ 4 ∷ 1 ∷ 2 ∷ []) 4)
read_route_example =
    read_route-Ends one_datagram one_datagram-Decoder (250 ∷ 4 ∷ 1 ∷ 2 ∷ []) 4 (omega arith)
