-- ===== src/Common/Compression.antt =====
-- src/common/compression_helper.hpp and .cpp, `compressionType_to_string` of src/common/common.hpp.
-- The zstd filters of Boost are a parameter: each gives the output, or throws ios_base::failure.
-- A level is the bit pattern of the source's std::int64_t.
pub mod RoundTrip
use distplusplus.Base.{ℕ, ◌%◌, ◌^◌, Bool, true, false, Option, Result, ok, err, if◌then◌else◌}
use distplusplus.Base.Text.{Text, codes}

-- `other` is a value that the protocol buffer carries and that the enum does not name.
pub data CompressionType : Type 0 where
  none zstd : CompressionType
  other : ℕ → CompressionType

pub data CompressionError : Type 0 where
  stream_failure runtime_error invalid_argument : CompressionError

-- `enabled` is the macro DISTPLUSPLUS_WITH_ZSTD.
pub record Zstd : Type 0 where
  pub enabled : Bool
  pub compressor : ℕ → Text → Option Text
  pub decompressor : Text → Option Text

pub compression_type_to_string : CompressionType → Result CompressionError Text
compression_type_to_string CompressionType.none = ok (codes "NONE")
compression_type_to_string CompressionType.zstd = ok (codes "zstd")
compression_type_to_string (CompressionType.other n) = err CompressionError.runtime_error

pub record CompressorFactory : Type 0 where
  pub compression_type : CompressionType
  pub compression_level : ℕ

abbrev pub streamed : Option Text → Result CompressionError Text
streamed Option.none = err CompressionError.stream_failure
streamed (Option.some t) = ok t

module _ (z : Zstd) where
  -- The data of `Compressor(type, level, input)`, or what its constructor throws.
  unfoldable pub compress : CompressionType → ℕ → Text → Result CompressionError Text
  compress CompressionType.none level input = ok input
  compress CompressionType.zstd level input =
      if z.enabled
      then streamed (z.compressor (level % 2 ^ 32) input)
      else err CompressionError.runtime_error
  compress (CompressionType.other n) level input = err CompressionError.invalid_argument

  -- `CompressorFactory::operator()`.
  unfoldable pub make_compressor : CompressorFactory → Text → Result CompressionError Text
  make_compressor f input = compress f.compression_type f.compression_level input

  -- The data of `Decompressor(type, input)`, or what its constructor throws.
  unfoldable pub decompress : CompressionType → Text → Result CompressionError Text
  decompress CompressionType.none input = ok input
  decompress CompressionType.zstd input =
      if z.enabled then streamed (z.decompressor input) else err CompressionError.runtime_error
  decompress (CompressionType.other n) input = err CompressionError.invalid_argument
