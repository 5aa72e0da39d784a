-- ===== src/Tests/Releases.antt =====
-- Runs of the life of a client.
use cmy_message.Prelude.{[], ◌∷◌, some, ok, ◌≡◌, arith}
use cmy_message.Queue.{null}
use cmy_message.Clients.Lifecycle.{life_of_client, life_of_client-releases}

life_of_client-releases_example :
    life_of_client 64 96 128 160 192
    ≡ ok (
      96 ∷ 128 ∷ 192 ∷ [],
      [],
      some (record {
        p_addr = some null;
        p_addr_len = some null;
        buffer = some null;
        name = some 160;
      }),
    )
life_of_client-releases_example =
    life_of_client-releases 64 96 128 (λ e. omega arith) (λ e. omega arith) (λ e. omega arith) 160
      192 (λ e. omega arith) (λ e. omega arith)
