-- ===== src/Carbon/Examples/Signing.antt =====
-- Signing on concrete keys: the "signature" is made of zeroes, or of the length of the message.
use phantasma_py.Carbon.Signed.RoundTrip.{gas_payer_lem}
use phantasma_py.Carbon.Signed.Signing.{as_read, signed_by, reads_back, refuses_to_sign, signs}
use phantasma_py.Carbon.Examples.{transfer, transfer-IsTxMsg, address}
use phantasma_py.Carbon.TxMsgs.RoundTrip.{IsTxMsg, write_tx_msg_lem}
use phantasma_py.Carbon.TxMsgs.{TxMsg, write_tx_msg, TxType, TxPayload}
use phantasma_py.Prelude.{
  ◌≢◌, length, replicate, ◌≡◌, arith, err, ok, refl, serialization, ◌∷◌, [], pos, inr,
}
use phantasma_py.Bytes.{Bytes}
use phantasma_py.Carbon.Signed.{
  Ed25519PrivateKey, SignedTxMsg, read_signed_tx_msg, sign_and_serialize_tx_msg, witness_form,
  write_signed_tx_msg, single, write_witnesses,
}
use phantasma_py.Carbon.Codec.{
  RoundTrips, serialize, deserialize, Encodes-RoundTrips, Encodes-bind, Encodes-last,
}

abbrev keys : Ed25519PrivateKey
keys = record { public_key = address; sign = λ message. replicate 64 (length message) }

length-sign : (message : Bytes) → length (keys.sign message) ≡ 64
length-sign message = refl

transfer_form : witness_form transfer.type ≡ single
unfolding witness_form
transfer_form = refl

signs_example :
    (message : Bytes) × (raw : Bytes) × (serialize (write_tx_msg transfer) ≡ ok message)
    × (sign_and_serialize_tx_msg transfer keys ≡ ok raw)
    × (deserialize read_signed_tx_msg raw ≡ ok (signed_by keys transfer message))
signs_example = signs keys refl length-sign transfer transfer-IsTxMsg (inr (transfer_form, refl))

abbrev other_keys : Ed25519PrivateKey
other_keys = record { public_key = replicate 32 8; sign = keys.sign }

other_keys_differ : other_keys.public_key ≢ transfer.gas_from
other_keys_differ e = cc

refuses_to_sign_example : sign_and_serialize_tx_msg transfer other_keys ≡ err serialization
refuses_to_sign_example =
    refuses_to_sign other_keys refl length-sign transfer transfer-IsTxMsg
      (inr (inr (transfer_form, other_keys_differ)))

-- The second witness of this message has an address that is not the payload's.
abbrev paid_transfer : TxMsg
paid_transfer = record transfer {
  type = TxType.transfer_fungible_gas_payer;
  msg =
      TxPayload.transfer_fungible_gas_payer
        (record { to = address; from_address = replicate 32 5; token_id = pos 1; amount = pos 2 });
}

paid_transfer-IsTxMsg : IsTxMsg paid_transfer
paid_transfer-IsTxMsg = record {
  type = refl;
  expiry = omega arith;
  max_gas = omega arith;
  max_data = omega arith;
  gas_from = refl;
  payload = transfer-IsTxMsg.payload;
  msg = record { to = refl; from_address = refl; token_id = omega arith; amount = omega arith };
}

abbrev strange : SignedTxMsg
strange = record {
  msg = paid_transfer;
  witnesses =
      record { address = address; signature = replicate 64 1 }
      ∷ record { address = address; signature = replicate 64 2 }
      ∷ [];
}

strange_bytes : RoundTrips (write_signed_tx_msg strange) read_signed_tx_msg (as_read strange)
unfolding write_signed_tx_msg read_signed_tx_msg write_witnesses witness_form
strange_bytes = Encodes-RoundTrips (
    Encodes-bind (write_tx_msg_lem paid_transfer paid_transfer-IsTxMsg) _ (
      Encodes-last (gas_payer_lem paid_transfer (replicate 64 1) (replicate 64 2) address refl refl)
        _))

reads_back_example : deserialize read_signed_tx_msg strange_bytes.0 ≡ ok (as_read strange)
reads_back_example =
    reads_back strange paid_transfer-IsTxMsg (omega arith) ((refl, refl), ((refl, refl), tt))
      strange_bytes.1
