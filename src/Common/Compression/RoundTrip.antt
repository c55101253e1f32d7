-- ===== src/Common/Compression/RoundTrip.antt =====
-- What was compressed is read back.
use distplusplus.Base.{ℕ, ◌%◌, ◌^◌, ◌≡◌, some, ok, arith}
use distplusplus.Base.Text.{Text}
use distplusplus.Common.Compression.{
  CompressionType, Zstd, CompressorFactory, compress, make_compressor, decompress,
}

-- The documented behaviour of the zstd filters: reading what was written gives it back.
abbrev pub IsLossless : Zstd → Type 0
IsLossless z =
    (level : ℕ) (input out : Text)
    → z.compressor level input ≡ some out
    → z.decompressor out ≡ some input

-- If the zstd filters are lossless and `make_compressor` returns `out` for `input`, then
-- `decompress` with the factory's type returns `input` for `out`.
pub decompress-make_compressor :
    (z : Zstd)
    → IsLossless z
    → (f : CompressorFactory) (input out : Text) → make_compressor z f input ≡ ok out
    → decompress z f.compression_type out ≡ ok input
unfolding make_compressor compress decompress
decompress-make_compressor z lossless f input out h = by_type f.compression_type h
  where
    by_type :
        (c : CompressionType)
        → compress z c f.compression_level input ≡ ok out
        → decompress z c out ≡ ok input
    by_type CompressionType.none e = cc
    by_type CompressionType.zstd e =
        ground (arith, lossless (f.compression_level % 2 ^ 32) input out)
    by_type (CompressionType.other n) e = cc
