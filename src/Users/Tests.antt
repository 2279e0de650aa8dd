-- ===== src/Users/Tests.antt =====
-- The theorems at a registration in an empty database.
use sentinel_project.Db.Memory.{memory}
use sentinel_project.Users.{create}
use sentinel_project.Users.Register.{Distinct, IsRegistered, create-Distinct, create-IsRegistered}
use sentinel_project.Users.Samples.{ada, argon, empty, registered, registers}

create-IsRegistered_example :
    IsRegistered memory argon ada 7 empty (create memory argon.hash ada 7 empty).1 registered
create-IsRegistered_example = create-IsRegistered memory argon ada 7 empty registered registers

create-Distinct_example :
    Distinct memory argon (memory.tables (create memory argon.hash ada 7 empty).1).users
create-Distinct_example = create-Distinct memory argon ada 7 empty tt
