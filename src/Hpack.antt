-- ===== src/Hpack.antt =====
-- hpack/codec.go: the codec over the HPACK library `golang.org/x/net/http2/hpack`, which is not part
-- of the repository and is a parameter here.
use mh2c_go.Base.{
  ◌⊎◌, inl, inr, ℕ, Bool, List, [], ◌∷◌, ◌++◌, Option, none, some, Bytes, Result, Error, ok, err,
}
use mh2c_go.Base.State.{M}

pub record HeaderField : Type 0 where
  pub name : Bytes
  pub value : Bytes
  pub sensitive : Bool

-- What the codec uses of the library. `write_field` also gives the bytes that it puts in the buffer;
-- `decode_full` gives the fields or an error.
pub record Library : Type 1 where
  pub Encoder : Type 0
  pub Decoder : Type 0
  pub new_encoder : Encoder
  pub set_encoder_limit : ℕ → Encoder → Encoder
  pub set_encoder_size : ℕ → Encoder → Encoder
  pub write_field : HeaderField → Encoder → Encoder × Bytes × Option Error
  pub new_decoder : ℕ → Decoder
  pub set_decoder_allowed : ℕ → Decoder → Decoder
  pub set_decoder_size : ℕ → Decoder → Decoder
  pub decode_full : Bytes → Decoder → Decoder × (List HeaderField ⊎ Error)

pub record DecodeReport : Type 0 where
  pub fields : List HeaderField
  pub warnings : List Bytes

abbrev initial_header_table_size : ℕ
initial_header_table_size = 4096

module _ (X : Library) where
  pub record Codec : Type 0 where
    pub max_size : ℕ
    pub buf : Bytes
    pub encoder : X.Encoder
    pub decoder : X.Decoder

-- The limit, and then the size, of the encoder's table.
set_encoder : (X : Library) → ℕ → X.Encoder → X.Encoder
set_encoder X v e = X.set_encoder_size v (X.set_encoder_limit v e)

-- The methods of a codec over the library `X`.
module _ {X : Library} where
  -- `newCodec`
  unfoldable pub make_codec : ℕ → ℕ → ℕ → Codec X
  unfolding set_encoder
  make_codec encoder_max decoder_size decoder_allowed = record {
    max_size = encoder_max;
    buf = [];
    encoder = set_encoder X encoder_max X.new_encoder;
    decoder =
        X.set_decoder_size decoder_size
          (X.set_decoder_allowed decoder_allowed (X.new_decoder decoder_size));
  }

  -- `MaxDynamicTableSize`
  abbrev pub max_dynamic_table_size : Codec X → ℕ
  max_dynamic_table_size c = c.max_size

  unfoldable pub set_max_dynamic_table_size : ℕ → Codec X → Codec X
  unfolding set_encoder
  set_max_dynamic_table_size v c = record c {
    max_size = v;
    encoder = set_encoder X v c.encoder;
    decoder = X.set_decoder_size v (X.set_decoder_allowed v c.decoder);
  }

  unfoldable pub set_encoder_max_dynamic_table_size : ℕ → Codec X → Codec X
  unfolding set_encoder
  set_encoder_max_dynamic_table_size v c = record c {
    max_size = v;
    encoder = set_encoder X v c.encoder;
  }

  unfoldable pub set_decoder_allowed_max_dynamic_table_size : ℕ → Codec X → Codec X
  set_decoder_allowed_max_dynamic_table_size v c = record c {
    decoder = X.set_decoder_allowed v c.decoder;
  }

  unfoldable pub set_decoder_max_dynamic_table_size : ℕ → Codec X → Codec X
  set_decoder_max_dynamic_table_size v c = record c { decoder = X.set_decoder_size v c.decoder }

  abbrev write_outcome :
      X.Encoder × Bytes × Option Error → Codec X → M (Codec X) Bytes → Codec X × Result Bytes
  write_outcome (e, out, some why) c rest = (record c { encoder = e; buf = c.buf ++ out }, err why)
  write_outcome (e, out, none) c rest = rest (record c { encoder = e; buf = c.buf ++ out })

  -- The loop of `Encode` over the fields that are left.
  unfoldable pub encode_fields : List HeaderField → M (Codec X) Bytes
  encode_fields [] c = (c, ok c.buf)
  encode_fields (f ∷ fs) c = write_outcome (X.write_field f c.encoder) c (encode_fields fs)

  unfoldable pub encode : List HeaderField → M (Codec X) Bytes
  unfolding encode_fields
  encode fields c = encode_fields fields (record c { buf = [] })

  abbrev report_outcome :
      Codec X → X.Decoder × (List HeaderField ⊎ Error) → Codec X × (DecodeReport ⊎ Error)
  report_outcome c (d, inl fields) =
      (record c { decoder = d }, inl (record { fields = fields; warnings = [] }))
  report_outcome c (d, inr why) = (record c { decoder = d }, inr why)

  unfoldable pub decode_detailed : Bytes → Codec X → Codec X × (DecodeReport ⊎ Error)
  decode_detailed block c = report_outcome c (X.decode_full block c.decoder)

  abbrev fields_outcome : Codec X × (DecodeReport ⊎ Error) → Codec X × (List HeaderField ⊎ Error)
  fields_outcome (c, inl report) = (c, inl report.fields)
  fields_outcome (c, inr why) = (c, inr why)

  unfoldable pub decode : Bytes → Codec X → Codec X × (List HeaderField ⊎ Error)
  unfolding decode_detailed
  decode block c = fields_outcome (decode_detailed block c)

pub new_codec : (X : Library) → ℕ → Codec X
unfolding make_codec
new_codec X size = make_codec size size size

unfoldable pub new_request_codec : (X : Library) → Codec X
unfolding make_codec
new_request_codec X =
    make_codec initial_header_table_size initial_header_table_size initial_header_table_size

unfoldable pub new_response_codec : (X : Library) → ℕ → Codec X
unfolding make_codec
new_response_codec X allowed =
    make_codec initial_header_table_size initial_header_table_size allowed
