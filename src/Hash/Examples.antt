-- ===== src/Hash/Examples.antt =====
-- Hashes of concrete numbers.
use hello_websocket.Hash.{hash_number, hex_digit, hash_block, hash_round, rotr}
use hello_websocket.Prelude.{◌≡◌, refl, negsuc, codes}

minus_42 : hash_number (negsuc 41) ≡ codes "fec80006df"
unfolding hash_number hex_digit hash_block hash_round rotr
minus_42 = refl
