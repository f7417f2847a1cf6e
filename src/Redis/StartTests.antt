-- ===== src/Redis/StartTests.antt =====
-- A server that starts, and what it does with two clients.
use homemade.Prelude.{ℕ, ◌≡◌, refl, true, none, some, [], ◌∷◌, arith, take}
use homemade.Redis.Object.{codes}
use homemade.Redis.Config.{init_server_config, append_server_save_params, reset_server_save_params}
use homemade.Redis.Clients.{
  RedisClient, Clients, new_client, create_client, find_client, update_client, add_client_reply,
  free_client, drop_first, drop_slave, drop_master,
}
use homemade.Redis.ClientEvents.{IsServed}
use homemade.Redis.ClientLaws.{accepts, replies, frees, Reach, here, next}
use homemade.Redis.Start.{
  Server, new_server, listens, opened_server, init_server, load_dump, accepting, ready, main_start,
  info_text,
}
use homemade.Redis.StartLaws.{main_start-IsServed}
use homemade.Ae.Events.{
  create_event_loop, create_file_event, create_time_event, delete_file_event, delete_file,
}
use homemade.Net.Sockets.{
  Sockets, connected, anet_tcp_server, serve_with, bind_and_listen, bind_address, or_close,
}
use homemade.Net.Samples.{Wire, wire, sockets}

abbrev listening_sockets : Sockets Wire
listening_sockets = record (sockets connected) { listen = λ s n w. (true, w) }

abbrev clock_of : Wire → ℕ × Wire
clock_of w = (w.clock, w)

abbrev day_of : Wire → (ℕ × ℕ) × Wire
day_of w = ((w.clock, 5), w)

abbrev started : Server
started = listens (new_server init_server_config 4 100 100 (100, 5))

abbrev bound : Wire
bound = record wire { opened = 4 ∷ 3 ∷ [] }

start_run :
    main_start listening_sockets clock_of day_of init_server_config none wire
    ≡ some (some started, bound)
unfolding main_start init_server opened_server ready accepting load_dump new_server
    create_event_loop create_file_event create_time_event init_server_config
    append_server_save_params reset_server_save_params anet_tcp_server serve_with bind_and_listen
    bind_address or_close
start_run = refl

abbrev client_7 : RedisClient
client_7 = record (new_client 7 100) { replies = codes "+OK\r\n" ∷ [] }

-- Client 7 is gone, and client 8 came before that.
abbrev other_client : Clients
other_client = create_client 8 101 started.clients

reached : Reach 4 started.clients other_client
unfolding create_client add_client_reply free_client new_client find_client update_client new_server
    create_event_loop create_file_event delete_file_event delete_file drop_first drop_slave
    drop_master
reached =
    next
      (next
        (next (next here (accepts 7 100 (omega arith) refl refl))
          (replies (codes "+OK\r\n") (new_client 7 100) refl refl))
        (accepts 8 101 (omega arith) refl refl))
      (frees client_7 (omega arith) refl)

main_start-IsServed_example : IsServed 4 other_client
unfolding new_server
main_start-IsServed_example =
    main_start-IsServed listening_sockets clock_of day_of init_server_config none wire bound started
      other_client start_run reached

-- The front of INFO.
info_run : take 20 (info_text 160 started) ≡ codes "redis_version:0.07\r\n"
unfolding info_text
info_run = refl
