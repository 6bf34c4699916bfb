-- ===== src/Transfer/Chunks.antt =====
-- How a file is cut into chunks (client/src/workers/file-send-worker.ts) and how the receiver reads
-- one and what it expects (client/src/domain/file-receive.ts).
pub mod Cuts
pub mod Plaintext
use Prim.Native.Char.{Char}
use Prim.Native.String.{char_at}
use unseen_fyi.Prelude.{
  ℕ, zero, suc, ◌+◌, ◌-◌, ◌*◌, ◌/◌, ◌%◌, Bool, true, false, not, ◌&&◌, Option, none, some, String,
  List, [], ◌∷◌, ◌++◌, length, take, drop, ltb, leb, ◌==◌, if◌then◌else◌,
}
use unseen_fyi.Wire.Bytes.{Bytes, zeros, set_bytes, set_uint32, get_uint32}
use unseen_fyi.Wire.Codes.{tid_bytes, chunk_header_bytes}

-- shared/src/limits.ts
abbrev pub chunk_data_max_bytes : ℕ
chunk_data_max_bytes = 8692

-- bytes.toHex()
unfoldable pub to_hex : Bytes → String
to_hex [] = ""
to_hex (b ∷ bs) =
    String.◌∷◌ (char_at "0123456789abcdef" (b / 16 % 16))
      (String.◌∷◌ (char_at "0123456789abcdef" (b % 16)) (to_hex bs))

pub record ChunkPlaintext : Type 0 where
  pub tid_hex : String
  pub seq : ℕ
  pub payload : Bytes

unfoldable pub parse_chunk_plaintext : Bytes → Option ChunkPlaintext
unfolding to_hex
parse_chunk_plaintext plaintext =
    if ltb (length plaintext) chunk_header_bytes
    then none
    else some (record {
      tid_hex = to_hex (take tid_bytes plaintext);
      seq = get_uint32 plaintext tid_bytes;
      payload = drop chunk_header_bytes plaintext;
    })

-- Math.ceil(expectedSize / CHUNK_DATA_MAX_BYTES)
unfoldable pub compute_total_chunks : ℕ → ℕ
compute_total_chunks expected_size =
    (expected_size + (chunk_data_max_bytes - 1)) / chunk_data_max_bytes

-- The size of an offer is at least 1, so there is at least one chunk.
unfoldable pub expected_chunk_len : ℕ → ℕ → ℕ → ℕ
expected_chunk_len expected_size seq total_chunks =
    if ltb (seq + 1) total_chunks
    then chunk_data_max_bytes
    else expected_size - chunk_data_max_bytes * (total_chunks - 1)

unfoldable pub build_chunk_plaintext : Bytes → ℕ → Bytes → Bytes
unfolding set_bytes set_uint32
build_chunk_plaintext tid current_seq payload =
    let out = set_bytes (zeros (chunk_header_bytes + length payload)) 0 tid in
    let numbered = set_uint32 out tid_bytes current_seq in
    set_bytes numbered chunk_header_bytes payload

-- The loop of `consumeIntoChunks`: whole pieces as long as there is one, and what is left. Each
-- round takes a piece, so that as many rounds as there are bytes are enough.
unfoldable pub take_pieces : ℕ → Bytes → List Bytes × Bytes
take_pieces zero combined = ([], combined)
take_pieces (suc rounds) combined =
    let (pieces, left) = take_pieces rounds (drop chunk_data_max_bytes combined) in
    if leb chunk_data_max_bytes (length combined)
    then (take chunk_data_max_bytes combined ∷ pieces, left)
    else ([], combined)

-- The pieces, and `pendingTail` after the call.
unfoldable pub consume_into_chunks : Bytes → Bytes → Bool → List Bytes × Bytes
unfolding take_pieces
consume_into_chunks pending_tail input is_eof =
    let combined = pending_tail ++ input in
    let (pieces, left) = take_pieces (length combined) combined in
    if not is_eof
    then (pieces, left)
    else if ltb 0 (length left)
    then (pieces ++ left ∷ [], [])
    else (pieces, [])

-- The pieces that `runPipeline` emits for what the stream's reader gives, up to its end.
unfoldable pub all_pieces : Bytes → List Bytes → List Bytes
unfolding consume_into_chunks
all_pieces pending_tail [] = (consume_into_chunks pending_tail [] true).0
all_pieces pending_tail (value ∷ reads) =
    let (pieces, pending_tail') = consume_into_chunks pending_tail value false in
    pieces ++ all_pieces pending_tail' reads
