-- ===== src/Poll/Sent/Tests.antt =====
-- The commands that reach SPDK: the theorem at a worker with a free operation.
use xcopy_block_io.Common.{zero, suc, refl, arith, some}
use xcopy_block_io.Dma.{zeroed}
use xcopy_block_io.Pool.{acquire, scan}
use xcopy_block_io.Lba.{get_random_src_lba, get_and_advance_dst_lba}
use xcopy_block_io.Generator.{get_ns_size, effective_src_nsid, generate}
use xcopy_block_io.Generator.Operation.{allocate_ranges}
use xcopy_block_io.Generator.Attempts.{ArePrepared}
use xcopy_block_io.Poll.Submit.{Command, submit_next_io}
use xcopy_block_io.Poll.Samples.{one_namespace, answers, no_more, slots, pool-IsValid, worker}
use xcopy_block_io.Poll.Sent.{Sent, Stocked, submit_next_io-Sent}

slots-Stocked : Stocked 2 slots
slots-Stocked zero op e = (ground arith, 64, ground arith)
slots-Stocked (suc zero) op e = (ground arith, 128, ground arith)
slots-Stocked (suc (suc i)) op e = cc

attempts-ArePrepared : ArePrepared one_namespace answers.draws (worker 8).mgr (zeroed 2)
unfolding get_ns_size effective_src_nsid
attempts-ArePrepared k = record {
  fixed = omega arith;
  drawn = omega arith;
  room = omega arith;
  valid = omega arith;
  no_wrap = omega arith;
  src_word = omega arith;
}

-- The command that goes out.
abbrev sent_command : Command
sent_command = record { ranges = some 64; num_ranges = 2; dst_nsid = 1; dst_lba = 16; slot = 0 }

submit_next_io-Sent_example :
    Sent no_more one_namespace answers.draws
      (worker 8)
      (submit_next_io no_more one_namespace answers (worker 8))
unfolding submit_next_io acquire scan generate get_ns_size allocate_ranges get_random_src_lba
    get_and_advance_dst_lba
submit_next_io-Sent_example =
    submit_next_io-Sent no_more one_namespace answers 2 (worker 8) slots sent_command pool-IsValid
      slots-Stocked (omega arith) attempts-ArePrepared refl
