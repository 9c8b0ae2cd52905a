-- ===== src/Open/Clients/Tests.antt =====
-- Runs of the client table of my-src/Chapter-17/open-2/17-27.c: two clients come, the first goes.
use my_apue.Prelude.{◌≡◌, refl, none, some, true, ◌∷◌, replicate}
use my_apue.Prelude.Int.{pos, minus_one}
use my_apue.Open.Clients.{
  Client, client_at, Clients, mark_free, client_alloc, take_free, add_loop, client_add, client_del,
}
use my_apue.Open.Clients.Laws.{Adds, client_add-Added}
use my_apue.Open.Clients.Delete.{Deletes, client_del-Deletes}

abbrev nobody : Clients
nobody = record { client = none; client_size = 0 }

abbrev junk : Client
junk = client_at (pos 77) 78

-- The table after `client_add(5, 1000)`.
abbrev one : Clients
one = record {
  client = some (client_at (pos 5) 1000 ∷ replicate 9 (client_at minus_one 78));
  client_size = 10;
}

add_first : client_add 2 junk true (pos 5) 1000 nobody ≡ some (0, one)
unfolding mark_free client_alloc take_free add_loop client_add
add_first = refl

client_add-Added_example : Adds (pos 6) 1001 one (client_add 2 junk true (pos 6) 1001 one)
client_add-Added_example = client_add-Added junk (pos 6) 1001 (λ e. cc) 0 one refl

client_del-Deletes_example : Deletes (pos 5) one (client_del (pos 5) one)
client_del-Deletes_example = client_del-Deletes (pos 5) one (λ e. cc)
