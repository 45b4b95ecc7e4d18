-- ===== src/Update/Laws/Checks.antt =====
-- `update_from_feed` on the feed of the tests of src/update.rs. A version is its text; an `rc` is not
-- stable, and the order is by the length of the text.
use rustblocker.Base.{arith, Bool, not, Option, some, Bytes, codes, length, leb, any, ◌==◌}
use rustblocker.Update.{update_from_feed}
use rustblocker.Update.Laws.Newest.{IsOrder}
use rustblocker.Update.Laws.{IsOffer, update_from_feed-IsOffer}

abbrev feed : Bytes
feed =
    codes
      "<feed><entry><title>v0.1.12</title></entry><entry><title>v0.2.0-rc.1</title></entry></feed>"

abbrev parse_any : Bytes → Option Bytes
parse_any text = some text

abbrev is_final : Bytes → Bool
is_final v = not (any (λ c. c == b'-') v)

abbrev by_length : Bytes → Bytes → Bool
by_length u v = leb (length u) (length v)

by_length-IsOrder : IsOrder Bytes by_length
by_length-IsOrder = record {
  reflexive = λ v. ground arith;
  transitive = λ u v w h k. ground (arith, h, k);
  total = λ u v h. ground (arith, h);
}

update_from_feed-IsOffer_example :
    IsOffer Bytes parse_any is_final by_length feed
      (codes "0.1.1")
      (codes "x86_64")
      (update_from_feed Bytes parse_any is_final by_length feed (codes "0.1.1") (codes "x86_64"))
update_from_feed-IsOffer_example =
    update_from_feed-IsOffer Bytes parse_any is_final by_length feed (codes "0.1.1")
      (codes "x86_64") by_length-IsOrder
