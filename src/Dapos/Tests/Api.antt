-- ===== src/Dapos/Tests/Api.antt =====
-- A transaction that a client sends, and what the handlers of dapos/dapos_api.go answer about it.
use disgo.Prelude.{◌≡◌, refl, true, [], ◌∷◌, pos, ◌-ℤ◌, sub64, wrap64}
use disgo.Prelude.Text.{hex_encode, hex_decode, write_int64}
use disgo.Crypto
use disgo.Crypto.Toy.{toy, fill}
use disgo.Types.Errors.{ok}
use disgo.Types.Rumor.{Rumor}
use disgo.Types.Rumor
use disgo.Types.Receipt
use disgo.Types.Gossip.{Gossip, new_gossip, has_rumor, contains_rumor}
use disgo.Types.Gossip
use disgo.Store.{assoc_stores, lookup}
use disgo.Store.Records.{have_sent, cache_receipt, cache_gossip}
use disgo.Store.Records.Transactions.{cache_transaction, to_transaction_from_cache}
use disgo.Store.Records.Transactions
use disgo.Types.Transaction.Signing.{verify, check_shape, check_type, check_signature, new_hash}
use disgo.Dapos.Peers.{cache_on_first_receive, tell_all}
use disgo.Dapos.Gossip.{
  GossipState, Response, start_gossiping, unless_invalid, unless_executed, unless_cached, begin,
}
use disgo.Types.Receipt.{new_receipt}
use disgo.Types.Constants.{pending}
use disgo.Store.{assoc_IsCache}
use disgo.Dapos.Api.{new_transaction, get_receipt, get_transaction, with_payload}
use disgo.Dapos.Api.Pending.{new_transaction-get_transaction}
use disgo.Dapos.Tests.Consensus.{alice, me, silent, now, node, payment, fifo, idle}

taken :
    (out : Response × GossipState assoc_stores fifo) × (new_transaction assoc_stores fifo toy me
        silent now true payment
        (node alice ∷ [])
        []
        idle
      ≡ ok out)
    × (out.0.status ≡ pending)
unfolding new_transaction start_gossiping unless_invalid unless_executed unless_cached begin
    cache_on_first_receive tell_all verify check_shape check_type check_signature new_hash
    Rumor.new_rumor Rumor.sign_rumor Rumor.hash_of Rumor.rumor_hash fill Crypto.new_hash
    Crypto.new_signature Crypto.to_address Crypto.to_public_key Crypto.verify_signature hex_encode
    hex_decode write_int64 have_sent lookup Gossip.key Gossip.rumor_key cache_transaction
    cache_receipt cache_gossip Receipt.key Transactions.key to_transaction_from_cache sub64 wrap64
    ◌-ℤ◌ new_gossip
taken = (_, refl, refl)

new_transaction-get_transaction_example :
    (get_receipt assoc_stores toy true (pos 1600) [] payment.hash taken.0.1.cache
      ≡ ok (with_payload (new_receipt payment.hash now.nanos)))
    × (get_transaction assoc_stores toy true (pos 1600) [] payment.hash taken.0.1.cache
        ≡ ok (with_payload (record payment { receipt = new_receipt payment.hash now.nanos })))
new_transaction-get_transaction_example =
    new_transaction-get_transaction assoc_stores fifo toy me silent now (pos 1600) payment
      (node alice ∷ []) [] idle taken.0 [] taken.0.1.cache assoc_IsCache taken.1 taken.2 refl refl
      refl
